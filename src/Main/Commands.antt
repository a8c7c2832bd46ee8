-- ===== src/Main/Commands.antt =====
-- The client program on lists of commands, and at the end of its input.
use mathlib.Core.List.{append_assoc}
use embkv.Base.{
  Bool, ℕ, zero, suc, ◌<◌, ◌≡◌, ◌≢◌, Option, refl, sym, ap, ◌∙◌, true, false, List, [], ◌∷◌, ◌++◌,
  arith, length,
}
use embkv.Proto.{Bytes, KvOperation}
use embkv.Store.Text.{bytes_eq}
use embkv.Stream.{Connection}
use embkv.Pipeline.{MessageCodec}
use embkv.Client.{Client, run, stop, put, get, del}
use embkv.Main.{
  Choice, option_of, digit, read_word, ClientNode, serve_option, client_round, client_rounds,
  run_client_node,
}

-- What can be typed at the client, but for the command that ends it.
pub data Command : Type 0 where
  run_command stop_command : Command
  put_command : Bytes → Bytes → Command
  get_command : Bytes → Command
  del_command : Bytes → Command

abbrev pub typed : Command → List Bytes
typed Command.run_command = digit 2 ∷ []
typed Command.stop_command = digit 3 ∷ []
typed (Command.put_command key value) = digit 4 ∷ key ∷ value ∷ []
typed (Command.get_command key) = digit 5 ∷ key ∷ []
typed (Command.del_command key) = digit 6 ∷ key ∷ []

abbrev pub all_typed : List Command → List Bytes
all_typed [] = []
all_typed (c ∷ cs) = typed c ++ all_typed cs

option_of-ne_quit :
    (option : Bytes) → bytes_eq option (digit 1) ≡ false → option_of option ≢ Choice.quit
unfolding option_of
option_of-ne_quit option h = ground arith

module _ {C : Type 0} (conn : Connection C) (codec : MessageCodec)
    (serialize_operation : KvOperation → Bytes) (dial : Bytes → ℕ → Option C)
    (pool_starts : Bool → Bool) where
  -- The call that a command stands for.
  abbrev pub call : Command → Client C → Client C
  call Command.run_command c = run conn codec serialize_operation dial pool_starts c
  call Command.stop_command c = stop conn codec serialize_operation dial c
  call (Command.put_command key value) c = put conn codec serialize_operation dial key value c
  call (Command.get_command key) c = get conn codec serialize_operation dial key c
  call (Command.del_command key) c = del conn codec serialize_operation dial key c

  abbrev pub call_all : List Command → Client C → Client C
  call_all [] c = c
  call_all (x ∷ xs) c = call_all xs (call x c)

  -- A state of the loop before an option is read.
  abbrev at_words : Bytes → List Bytes → Client C → ClientNode C
  at_words option words client = record {
    running = true;
    option = option;
    words = words;
    client = client;
  }

  -- A round takes the words of one command.
  client_round-command :
      (x : Command) (rest : List Bytes) (option : Bytes) (c : Client C)
      → (o : Bytes) × (client_round conn codec serialize_operation dial pool_starts
            (at_words option (typed x ++ rest) c)
          ≡ at_words o rest (call x c))
        × (bytes_eq o (digit 1) ≡ false)
  unfolding client_round read_word option_of bytes_eq serve_option
  client_round-command Command.run_command rest option c = (_, refl, refl)
  client_round-command Command.stop_command rest option c = (_, refl, refl)
  client_round-command (Command.put_command key value) rest option c = (_, refl, refl)
  client_round-command (Command.get_command key) rest option c = (_, refl, refl)
  client_round-command (Command.del_command key) rest option c = (_, refl, refl)

  client_rounds-ended :
      (k : ℕ) (s : ClientNode C)
      → s.running ≡ false
      → client_rounds conn codec serialize_operation dial pool_starts k s ≡ s
  unfolding client_rounds
  client_rounds-ended zero s e = refl
  client_rounds-ended (suc k) s e = rw (e, client_rounds) refl

  client_rounds-commands :
      (xs : List Command) (rounds : ℕ) (rest : List Bytes) (option : Bytes) (c : Client C)
      → length xs < rounds
      → client_rounds conn codec serialize_operation dial pool_starts rounds
          (at_words option (all_typed xs ++ digit 1 ∷ rest) c)
        ≡ record { running = false; option = digit 1; words = rest; client = call_all xs c }
  unfolding client_rounds client_round read_word option_of bytes_eq serve_option
  client_rounds-commands xs zero rest option c h = absurd (omega arith)
  client_rounds-commands [] (suc k) rest option c h =
      client_rounds-ended k (record { running = false; option = digit 1; words = rest; client = c })
        refl
  client_rounds-commands (x ∷ xs) (suc k) rest option c h =
      let (o, after, goes_on) = client_round-command x (all_typed xs ++ digit 1 ∷ rest) option c in
      let words : typed x ++ (all_typed xs ++ digit 1 ∷ rest)
          ≡ (typed x ++ all_typed xs) ++ digit 1 ∷ rest =
        sym (append_assoc (typed x) (all_typed xs) (digit 1 ∷ rest)) in
      ap
        (λ l.
          client_rounds conn codec serialize_operation dial pool_starts (suc k)
            (at_words option l c))
        (sym words)
      ∙ ap (client_rounds conn codec serialize_operation dial pool_starts k) after
      ∙ client_rounds-commands xs k rest o (call x c) (omega arith)

  -- Without a word to read, a round does again what the last option says.
  serve_option-at_end :
      (choice : Choice) (option : Bytes) (c : Client C)
      → choice ≢ Choice.quit
      → (c' : Client C) × (serve_option conn codec serialize_operation dial pool_starts choice
            (at_words option [] c)
          ≡ at_words option [] c')
  unfolding serve_option read_word
  serve_option-at_end Choice.quit option c h = absurd (h refl)
  serve_option-at_end Choice.run_client option c h = (_, refl)
  serve_option-at_end Choice.stop_client option c h = (_, refl)
  serve_option-at_end Choice.put_key option c h = (_, refl)
  serve_option-at_end Choice.get_key option c h = (_, refl)
  serve_option-at_end Choice.del_key option c h = (_, refl)
  serve_option-at_end Choice.other option c h = (_, refl)

  client_rounds-at_end :
      (rounds : ℕ) (option : Bytes) (c : Client C)
      → bytes_eq option (digit 1) ≡ false
      → (client_rounds conn codec serialize_operation dial pool_starts rounds
          (at_words option [] c)).running
        ≡ true
  unfolding client_rounds client_round read_word
  client_rounds-at_end zero option c h = refl
  client_rounds-at_end (suc k) option c h =
      let (c', e) = serve_option-at_end (option_of option) option c (option_of-ne_quit option h) in
      ap (λ s. (client_rounds conn codec serialize_operation dial pool_starts k s).running) e
      ∙ client_rounds-at_end k option c' h

  client_rounds-unended :
      (xs : List Command) (rounds : ℕ) (option : Bytes) (c : Client C)
      → bytes_eq option (digit 1) ≡ false
      → (client_rounds conn codec serialize_operation dial pool_starts rounds
          (at_words option (all_typed xs) c)).running
        ≡ true
  unfolding client_rounds
  client_rounds-unended [] rounds option c h = client_rounds-at_end rounds option c h
  client_rounds-unended (x ∷ xs) zero option c h = refl
  client_rounds-unended (x ∷ xs) (suc k) option c h =
      let (o, after, goes_on) = client_round-command x (all_typed xs) option c in
      ap (λ s. (client_rounds conn codec serialize_operation dial pool_starts k s).running) after
      ∙ client_rounds-unended xs k o (call x c) goes_on

  -- The client program carries out the commands that are typed, in order, after it has started the
  -- client, and ends at the command "1": in any number of rounds that is larger than the number of the
  -- commands, and with what stands behind that command unread. If the input ends
  -- without that command, the program never ends.
  pub run_client_node-commands :
      (xs : List Command) (rounds : ℕ) (rest : List Bytes) (c : Client C)
      → length xs < rounds
      → (run_client_node conn codec serialize_operation dial pool_starts rounds
            (all_typed xs ++ digit 1 ∷ rest)
            c
          ≡ record {
            running = false;
            option = digit 1;
            words = rest;
            client = call_all xs (run conn codec serialize_operation dial pool_starts c);
          })
        × ((more : ℕ)
            → (run_client_node conn codec serialize_operation dial pool_starts more
                (all_typed xs)
                c).running
              ≡ true)
  unfolding run_client_node bytes_eq
  run_client_node-commands xs rounds rest c h = (
    client_rounds-commands xs rounds rest [] (run conn codec serialize_operation dial pool_starts c)
        h,
    λ more.
        client_rounds-unended xs more [] (run conn codec serialize_operation dial pool_starts c)
          refl,
  )
