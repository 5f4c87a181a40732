-- ===== src/Api/Options.antt =====
-- `WebSocket\ServerOptions`, and what the server's loop reads of it.
use php_websocket.Base.{
  ℕ, zero, suc, ◌*◌, ◌%◌, ◌^◌, ◌<◌, ◌≡◌, refl, false, Option, none, some, List, [], ◌∷◌,
  if◌then◌else◌, Bool-cases, inl, inr, arith,
}
use php_websocket.Base.Int.{ℤ, pos, negsuc, lt_nat}
use php_websocket.Server.Timers.{
  Options, positive_option, nonnegative_option, handshake_timeout_usec, idle_timeout_usec,
  ping_interval_usec, pong_timeout_usec,
}
use php_websocket.Api.Values.{value_error, Made, made, throws}

-- The properties of a `WebSocket\ServerOptions`.
pub record ServerOptions : Type 0 where
  pub max_message_size : ℤ
  pub max_queued_bytes : ℤ
  pub max_connections : ℤ
  pub handshake_timeout_ms : ℤ
  pub idle_timeout_ms : ℤ
  pub ping_interval_ms : ℤ
  pub pong_timeout_ms : ℤ

-- What `WebSocket\ServerOptions::__construct` is called with when no argument is given.
abbrev pub default_options : ServerOptions
default_options = record {
  max_message_size = pos 16777216;
  max_queued_bytes = pos 16777216;
  max_connections = pos 10000;
  handshake_timeout_ms = pos 10000;
  idle_timeout_ms = pos 120000;
  ping_interval_ms = pos 0;
  pong_timeout_ms = pos 10000;
}

-- `WebSocket\ServerOptions::__construct`
unfoldable pub construct_options : ServerOptions → Made ServerOptions
construct_options o =
    if lt_nat o.max_message_size 1
    then throws (value_error 1)
    else if lt_nat o.max_queued_bytes 1
    then throws (value_error 2)
    else if lt_nat o.max_connections 1
    then throws (value_error 3)
    else if lt_nat o.handshake_timeout_ms 1
    then throws (value_error 4)
    else if lt_nat o.idle_timeout_ms 1
    then throws (value_error 5)
    else if lt_nat o.ping_interval_ms 0
    then throws (value_error 6)
    else if lt_nat o.pong_timeout_ms 1
    then throws (value_error 7)
    else made o

-- `websocket_server_max_message_size`
unfoldable pub max_message_size : Option ℤ → ℕ
max_message_size value = positive_option value 16777216

-- `websocket_server_max_queued_bytes`
unfoldable pub max_queued_bytes : Option ℤ → ℕ
max_queued_bytes value = positive_option value 16777216

-- `websocket_server_max_connections`
unfoldable pub max_connections : Option ℤ → ℕ
max_connections value = positive_option value 10000

-- The times as the loop reads them.
abbrev pub times : ServerOptions → Options
times o = record {
  handshake_timeout_ms = some o.handshake_timeout_ms;
  idle_timeout_ms = some o.idle_timeout_ms;
  ping_interval_ms = some o.ping_interval_ms;
  pong_timeout_ms = some o.pong_timeout_ms;
}

-- Each argument with the least value that it may have.
abbrev pub bounds : ServerOptions → List (ℤ × ℕ)
bounds o =
    (o.max_message_size, 1)
    ∷ (o.max_queued_bytes, 1)
    ∷ (o.max_connections, 1)
    ∷ (o.handshake_timeout_ms, 1)
    ∷ (o.idle_timeout_ms, 1)
    ∷ (o.ping_interval_ms, 0)
    ∷ (o.pong_timeout_ms, 1)
    ∷ []

-- The number of the first argument that is below its least value, counted from `n`.
abbrev pub first_below : ℕ → List (ℤ × ℕ) → Option ℕ
first_below n [] = none
first_below n ((value, least) ∷ rest) =
    if lt_nat value least then some n else first_below (suc n) rest

-- The value that the loop goes by is the one given, and the times are a thousand times as many
-- microseconds.
abbrev pub IsValue : ℤ → ℕ → Type 0
IsValue value n = value ≡ pos n

abbrev pub IsTime : ℤ → ℕ → Type 0
IsTime ms usec = (n : ℕ) × (ms ≡ pos n) × (n * 1000 < 2 ^ 64 → usec ≡ n * 1000)

abbrev pub IsHonoured : ServerOptions → Type 0
IsHonoured o =
    IsValue o.max_message_size (max_message_size (some o.max_message_size))
    × IsValue o.max_queued_bytes (max_queued_bytes (some o.max_queued_bytes))
    × IsValue o.max_connections (max_connections (some o.max_connections))
    × IsTime o.handshake_timeout_ms (handshake_timeout_usec (times o))
    × IsTime o.idle_timeout_ms (idle_timeout_usec (times o))
    × IsTime o.ping_interval_ms (ping_interval_usec (times o))
    × IsTime o.pong_timeout_ms (pong_timeout_usec (times o))

abbrev pub IsConstructed : ServerOptions → Option ℕ → Made ServerOptions → Type 0
IsConstructed o none r = (r ≡ made o) × IsHonoured o
IsConstructed o (some n) r = r ≡ throws (value_error n)

positive-IsValue :
    (value : ℤ) (fallback : ℕ)
    → lt_nat value 1 ≡ false
    → IsValue value (positive_option (some value) fallback)
unfolding positive_option
positive-IsValue (pos zero) fallback h = absurd (ground arith)
positive-IsValue (pos (suc n)) fallback h = refl
positive-IsValue (negsuc n) fallback h = cc

positive-IsTime :
    (value : ℤ) (fallback : ℕ)
    → lt_nat value 1 ≡ false
    → IsTime value (positive_option (some value) fallback * 1000 % 2 ^ 64)
unfolding positive_option
positive-IsTime (pos zero) fallback h = absurd (ground arith)
positive-IsTime (pos (suc n)) fallback h = (suc n, refl, λ l. omega arith)
positive-IsTime (negsuc n) fallback h = absurd (cc)

nonnegative-IsTime :
    (value : ℤ) (fallback : ℕ)
    → lt_nat value 0 ≡ false
    → IsTime value (nonnegative_option (some value) fallback * 1000 % 2 ^ 64)
unfolding nonnegative_option
nonnegative-IsTime (pos n) fallback h = (n, refl, λ l. omega arith)
nonnegative-IsTime (negsuc n) fallback h = absurd (cc)

-- Constructing options throws a ValueError on the first argument that is below its least value, 1
-- or, for the ping interval, 0; if there is none, the loop goes by exactly the values given, and by
-- the times in microseconds where these fit into 64 bits.
pub construct_options-IsConstructed :
    (o : ServerOptions) → IsConstructed o (first_below 1 (bounds o)) (construct_options o)
unfolding construct_options max_message_size max_queued_bytes max_connections handshake_timeout_usec
    idle_timeout_usec ping_interval_usec pong_timeout_usec
construct_options-IsConstructed o = elim (Bool-cases (lt_nat o.max_message_size 1)) [
  | inl t1 ↦ rw t1 refl
  | inr t1 ↦ elim (Bool-cases (lt_nat o.max_queued_bytes 1)) [
    | inl t2 ↦ rw (t1, t2) refl
    | inr t2 ↦ elim (Bool-cases (lt_nat o.max_connections 1)) [
      | inl t3 ↦ rw (t1, t2, t3) refl
      | inr t3 ↦ elim (Bool-cases (lt_nat o.handshake_timeout_ms 1)) [
        | inl t4 ↦ rw (t1, t2, t3, t4) refl
        | inr t4 ↦ elim (Bool-cases (lt_nat o.idle_timeout_ms 1)) [
          | inl t5 ↦ rw (t1, t2, t3, t4, t5) refl
          | inr t5 ↦ elim (Bool-cases (lt_nat o.ping_interval_ms 0)) [
            | inl t6 ↦ rw (t1, t2, t3, t4, t5, t6) refl
            | inr t6 ↦ elim (Bool-cases (lt_nat o.pong_timeout_ms 1)) [
              | inl t7 ↦ rw (t1, t2, t3, t4, t5, t6, t7) refl
              | inr t7 ↦
                  rw (t1, t2, t3, t4, t5, t6, t7)
                    (
                      refl,
                      (
                        positive-IsValue o.max_message_size 16777216 t1,
                        positive-IsValue o.max_queued_bytes 16777216 t2,
                        positive-IsValue o.max_connections 10000 t3,
                        positive-IsTime o.handshake_timeout_ms 10000 t4,
                        positive-IsTime o.idle_timeout_ms 120000 t5,
                        nonnegative-IsTime o.ping_interval_ms 0 t6,
                        positive-IsTime o.pong_timeout_ms 10000 t7,
                      ),
                    )
            ]
          ]
        ]
      ]
    ]
  ]
]
