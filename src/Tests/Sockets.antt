-- ===== src/Tests/Sockets.antt =====
-- Sockets: a system of two descriptors, and the transport's listener on it.
use embkv.Base.{
  ℕ, ◌≡◌, refl, Bool, true, false, Option, none, some, if◌then◌else◌, ap, sym, ◌∙◌, Bool-cases, inl,
  inr,
}
use mathlib.Core.Option.{some-injective, none-ne-some}
use embkv.Descriptor.{update}
use embkv.Addr.{SocketAddr}
use embkv.Sockets.{System, bind}
use embkv.Sockets.Leaks.{Opens, sockets-Opens}

-- A system that has descriptor 3 for a socket and descriptor 4 for a connection, while these are not
-- open, and in which every other call succeeds but bind.
abbrev offer : {A : Type 0} → ℕ → A → (ℕ → Bool) → Option A × (ℕ → Bool)
offer d a s = if s d then (none, s) else (some a, update s d true)

offer-some :
    {A : Type 0} (d : ℕ) (a b : A) (s : ℕ → Bool)
    → (offer d a s).0 ≡ some b
    → (a ≡ b) × (s d ≡ false) × ((offer d a s).1 ≡ update s d true)
offer-some d a b s h = elim (Bool-cases (s d)) [
  | inl taken ↦ absurd (none-ne-some b (sym (rw taken refl) ∙ h))
  | inr free ↦ (some-injective a b (sym (rw free refl) ∙ h), free, rw free refl)
]

offer-none :
    {A : Type 0} (d : ℕ) (a : A) (s : ℕ → Bool) → (offer d a s).0 ≡ none → (offer d a s).1 ≡ s
offer-none d a s h = elim (Bool-cases (s d)) [
  | inl taken ↦ rw taken refl
  | inr free ↦ absurd (none-ne-some a (sym h ∙ rw free refl))
]

abbrev caller : SocketAddr
caller = record { family = 2; sin_port = 2; s_addr = 1 }

abbrev kernel : System (ℕ → Bool)
kernel = record {
  socket = λ k s. offer 3 3 s;
  bind = λ d a s. (false, s);
  listen = λ d s. (true, s);
  set_option = λ d o s. (true, s);
  accept = λ l s. offer 4 (4, caller) s;
  connect = λ d a s. (true, s);
  close = λ d s. update s d false;
  is_open = λ s d. s d;
  socket-fresh =
      λ k s d e. let (same, free, after) = offer-some 3 3 d s e in ap s (sym same) ∙ free;
  socket-is_open = λ k s d j e.
      let (same, free, after) = offer-some 3 3 d s e in
      ap (λ t. t j) after ∙ ap (λ c. update s c true j) same;
  socket_failed-is_open = λ k s j e. ap (λ t. t j) (offer-none 3 3 s e);
  accept-fresh = λ l s d from e.
      let (same, free, after) = offer-some 4 (4, caller) (d, from) s e in
      ap (λ p. s p.0) (sym same) ∙ free;
  accept-is_open = λ l s d from j e.
      let (same, free, after) = offer-some 4 (4, caller) (d, from) s e in
      ap (λ t. t j) after ∙ ap (λ p. update s p.0 true j) same;
  accept_failed-is_open = λ l s j e. ap (λ t. t j) (offer-none 4 (4, caller) s e);
  bind-is_open = λ d a s j. refl;
  listen-is_open = λ d s j. refl;
  set_option-is_open = λ d o s j. refl;
  connect-is_open = λ d a s j. refl;
  close-is_open = λ d s j. refl;
}

abbrev local : SocketAddr
local = record { family = 2; sin_port = 8081; s_addr = 1 }

sockets-Opens_example : Opens kernel (λ d. false) (bind kernel local (λ d. false))
sockets-Opens_example = (sockets-Opens kernel local 5 (λ d. false)).0
