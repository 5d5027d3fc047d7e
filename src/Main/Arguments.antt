-- ===== src/Main/Arguments.antt =====
-- The command lines that the program takes.
use Prim.Native.String.{String, len}
use latency_under_load.Prelude.{
  ℕ, ◌≤◌, ◌<◌, ◌≡◌, refl, inl, inr, Option, none, some, Bool, true, false, List, [], ◌∷◌, arith,
  length, get_elem?, get_elem?_of_lt, Result, ok, Succeeds, ◌>>=◌, ltb, Bool-cases, ltb→le,
}
use latency_under_load.Config.{Config, Extra, opening, closing, non, warm_up_period}
use latency_under_load.Main.{
  arg, copy_server_ip, server_ip_size, server_of, warm_of, nodelay_of, extra_of, unless_unknown,
  process_arg, read_config,
}

abbrev pub side_word : Bool → String
side_word true = "SERVER"
side_word false = "CLIENT"

abbrev pub warm_word : Bool → String
warm_word true = "WARMUP"
warm_word false = "NOWARMUP"

abbrev pub warm_period : Bool → ℕ
warm_period true = warm_up_period
warm_period false = 0

abbrev pub delay_word : Bool → String
delay_word false = "DELAY"
delay_word true = "NODELAY"

abbrev pub extra_word : Extra → String
extra_word opening = "EXTRA_OPEN"
extra_word closing = "EXTRA_CLOSE"
extra_word non = "NOEXTRA"

server_of-side_word : (b : Bool) → server_of (side_word b) ≡ some b
unfolding server_of
server_of-side_word true = refl
server_of-side_word false = refl

warm_of-warm_word : (b : Bool) → warm_of (warm_word b) ≡ some (warm_period b)
unfolding warm_of
warm_of-warm_word true = refl
warm_of-warm_word false = refl

nodelay_of-delay_word : (b : Bool) → nodelay_of (delay_word b) ≡ some b
unfolding nodelay_of
nodelay_of-delay_word true = refl
nodelay_of-delay_word false = refl

extra_of-extra_word : (e : Extra) → extra_of (extra_word e) ≡ some e
unfolding extra_of
extra_of-extra_word opening = refl
extra_of-extra_word closing = refl
extra_of-extra_word non = refl

-- A command line for a configuration, whose numbers `decimal` prints.
abbrev pub command_line : (ℕ → String) → Bool → Config → List String
command_line decimal warm config =
    "program"
    ∷ side_word config.server
    ∷ config.server_ip
    ∷ decimal config.server_port
    ∷ decimal config.message_size
    ∷ decimal config.mps
    ∷ decimal config.period
    ∷ decimal config.number_connection
    ∷ warm_word warm
    ∷ delay_word config.tcp_nodelay
    ∷ extra_word config.extra_op
    ∷ []

-- Where `atoi` reads the numbers that `decimal` prints: every configuration with an address of less
-- than 20 bytes, and with the warm up period or with none, is what the program reads from a command
-- line for it.
pub read_config-command_line :
    (atoi : String → ℕ) (decimal : ℕ → String) (warm : Bool) (config : Config)
    → ((n : ℕ) → atoi (decimal n) ≡ n)
    → config.warm ≡ warm_period warm
    → len config.server_ip < server_ip_size
    → read_config atoi (command_line decimal warm config) ≡ ok (some config)
unfolding read_config process_arg copy_server_ip
read_config-command_line atoi decimal warm config reads period short =
    let fits : ltb (len config.server_ip) server_ip_size ≡ true = ground (arith, short) in
    rw
      (
        server_of-side_word config.server,
        fits,
        warm_of-warm_word warm,
        nodelay_of-delay_word config.tcp_nodelay,
        extra_of-extra_word config.extra_op,
        reads config.server_port,
        reads config.message_size,
        reads config.mps,
        reads config.period,
        reads config.number_connection,
        ← period,
      )
      refl

-- An argument that is there is read.
arg-Succeeds :
    (i : ℕ) (argv : List String) (f : String → Result (Option Config)) (P : Option Config → Type 0)
    → i < length argv
    → ((s : String) → get_elem? argv i ≡ some s → Succeeds (f s) P)
    → Succeeds (arg i argv >>= f) P
arg-Succeeds i argv f P h k =
    let (s, e) = get_elem?_of_lt argv i h in
    let there : arg i argv ≡ ok s = ground (arith, e) in rw there (k s e)

unless_unknown-Succeeds {ℓ} :
    {A : Type ℓ} (o : Option A) (f : A → Result (Option Config))
    → ((a : A) → Succeeds (f a) (λ _. Unit {0}))
    → Succeeds (unless_unknown o f) (λ _. Unit {0})
unless_unknown-Succeeds none f h = tt
unless_unknown-Succeeds (some a) f h = h a

-- With any arguments of which the second, if there is one, has less than 20 bytes, the program
-- comes to a configuration or to the message on the usage, without an access outside an object.
pub read_config-Succeeds :
    (atoi : String → ℕ) (argv : List String)
    → ((ip : String) → get_elem? argv 2 ≡ some ip → len ip < server_ip_size)
    → Succeeds (read_config atoi argv) (λ _. Unit {0})
unfolding read_config process_arg copy_server_ip
read_config-Succeeds atoi argv short = elim (Bool-cases (ltb (length argv) 11)) [
  | inl few ↦ rw few tt
  | inr many ↦
      let enough : 11 ≤ length argv = ltb→le _ _ many in
      rw many (
        arg-Succeeds 1 argv _ _ (omega arith) (λ side _.
          unless_unknown-Succeeds (server_of side) _ (λ server.
            arg-Succeeds 2 argv _ _ (omega arith) (λ ip at.
              let fits : ltb (len ip) server_ip_size ≡ true = ground (arith, short ip at) in
              rw fits (
                arg-Succeeds 3 argv _ _ (omega arith) (λ port _.
                  arg-Succeeds 4 argv _ _ (omega arith) (λ size _.
                    arg-Succeeds 5 argv _ _ (omega arith) (λ rate _.
                      arg-Succeeds 6 argv _ _ (omega arith) (λ period _.
                        arg-Succeeds 7 argv _ _ (omega arith) (λ n _.
                          arg-Succeeds 8 argv _ _ (omega arith) (λ warm_up _.
                            unless_unknown-Succeeds (warm_of warm_up) _ (λ warm.
                              arg-Succeeds 9 argv _ _ (omega arith) (λ delay _.
                                unless_unknown-Succeeds (nodelay_of delay) _ (λ nodelay.
                                  arg-Succeeds 10 argv _ _ (omega arith) (λ extra _.
                                    unless_unknown-Succeeds (extra_of extra) _
                                      (λ extra_op. tt))))))))))))))))
]
