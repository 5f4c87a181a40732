-- ===== src/Server/Timers/Heartbeat.antt =====
-- What the heartbeat does to a connection in its turn.
use php_websocket.Base.{
  ℕ, ◌+◌, ◌-◌, ◌≤◌, ◌<◌, ◌≡◌, ◌⊎◌, ◌↔◌, refl, ap, sym, Bool, true, false, not, ◌&&◌, ◌||◌, [],
  Bytes, ltb, leb, ◌==◌, if◌then◌else◌, Bool-cases, inl, inr, arith,
}
use php_websocket.Base.Int.{pos}
use php_websocket.Protocol.Opcode.{opcode_ping}
use php_websocket.Protocol.Mask.{Endian}
use php_websocket.Connection.State.{Net, Conn, Outcome}
use php_websocket.Connection.Send.{send_frame, send_close_frame}
use php_websocket.Server.Messages.{close_with_code}
use php_websocket.Server.Timers.{
  Options, last_activity, process_heartbeat, after_ping, ping_interval_usec, pong_timeout_usec,
}
use php_websocket.Server.Timers.Limits.{is_closing, close_with_code-closing}

-- The answer to the last ping is missing for the time it is given.
abbrev pub PongIsLate : Options → Conn → ℕ → Type 0
PongIsLate o c now =
    (c.awaiting_pong ≡ true)
    × (0 < c.last_ping_usec)
    × (c.last_ping_usec + pong_timeout_usec o ≤ now)

-- The connection has seen nothing for the interval, and no ping is out.
abbrev pub PingIsDue : Options → Conn → ℕ → Type 0
PingIsDue o c now =
    (c.awaiting_pong ≡ false)
    × (0 < last_activity c)
    × (last_activity c + ping_interval_usec o ≤ now)

late_iff :
    (now ping timeout : ℕ)
    → ((ltb 0 ping && leb ping now && leb timeout (now - ping)) ≡ true)
      ↔ ((0 < ping) × (ping + timeout ≤ now))
late_iff now ping timeout = (λ h. (ground (arith, h), ground (arith, h)), λ h. ground (arith, h))

due_iff :
    (now last interval : ℕ)
    → ((last == 0 || ltb now last || ltb (now - last) interval) ≡ false)
      ↔ ((0 < last) × (last + interval ≤ now))
due_iff now last interval = (λ h. (ground (arith, h), ground (arith, h)), λ h. ground (arith, h))

-- The heartbeat is on, for a connection that is not closing.
abbrev pub is_beating : Options → Conn → Bool
is_beating o c = ltb 0 (ping_interval_usec o) && c.upgraded && not (is_closing c)

-- A ping has been sent, and its time is noted.
abbrev pub HasPinged : Endian → Conn → Net → ℕ → Outcome → Type 0
HasPinged e c net now (ok', c', net') =
    let sent = send_frame e c net [] opcode_ping in
    (sent.0 ≡ true) × (net' ≡ sent.2) × (c'.awaiting_pong ≡ true) × (c'.last_ping_usec ≡ now)

-- What the heartbeat does in its three cases.
abbrev pub Beats : Endian → Options → Conn → Net → ℕ → Outcome → Type 0
Beats e o c net now out =
    (out.0 ≡ true)
    × (((is_beating o c ≡ true) × PongIsLate o c now × (is_closing out.1 ≡ true))
        ⊎ ((is_beating o c ≡ true)
            × PingIsDue o c now
            × (HasPinged e c net now out ⊎ (is_closing out.1 ≡ true)))
        ⊎ ((is_beating o c ≡ true → PongIsLate o c now ⊎ PingIsDue o c now → ⊥)
            × (out ≡ (true, c, net))))

close_with_code-true :
    (e : Endian) (c : Conn) (net : Net) (code : ℕ) (reason : Bytes)
    → (close_with_code e c net code reason).0 ≡ true
unfolding close_with_code
close_with_code-true e c net code reason =
    let o = send_close_frame e c net (pos code) reason in
    elim (Bool-cases o.0) [ inl t ↦ rw t refl | inr t ↦ rw t refl ]

after_ping-Beats :
    (e : Endian) (c : Conn) (net : Net) (now : ℕ) (o : Outcome)
    → send_frame e c net [] opcode_ping ≡ o
    → ((after_ping e now o).0 ≡ true)
      × (HasPinged e c net now (after_ping e now o) ⊎ (is_closing (after_ping e now o).1 ≡ true))
after_ping-Beats e c net now (true, c', net') h =
    (refl, inl (ap (λ o. o.0) h, sym (ap (λ o. o.2) h), refl, refl))
after_ping-Beats e c net now (false, c', net') h =
    (close_with_code-true e c' net' _ _, inr (close_with_code-closing e c' net' _ _))

-- The five branches of the heartbeat.
by_branch :
    (P : Outcome → Type 0) (a b late early : Bool) (same timed_out pinged : Outcome)
    → (a ≡ true → P same)
    → (a ≡ false → b ≡ true → late ≡ true → P timed_out)
    → (a ≡ false → b ≡ true → late ≡ false → P same)
    → (a ≡ false → b ≡ false → early ≡ true → P same)
    → (a ≡ false → b ≡ false → early ≡ false → P pinged)
    → P (
        if a
        then same
        else if b
        then (if late then timed_out else same)
        else if early
        then same
        else pinged)
by_branch P true b late early same timed_out pinged p q r s t = p refl
by_branch P false true true early same timed_out pinged p q r s t = q refl refl refl
by_branch P false true false early same timed_out pinged p q r s t = r refl refl refl
by_branch P false false late true same timed_out pinged p q r s t = s refl refl refl
by_branch P false false late false same timed_out pinged p q r s t = t refl refl refl

-- The three tests of the heartbeat.
abbrev is_off : Options → Conn → ℕ → Bool
is_off o c now =
    ping_interval_usec o == 0
    || now == 0
    || not c.open_state
    || not c.upgraded
    || c.close_after_write

abbrev is_late : Options → Conn → ℕ → Bool
is_late o c now =
    ltb 0 c.last_ping_usec
    && leb c.last_ping_usec now
    && leb (pong_timeout_usec o) (now - c.last_ping_usec)

abbrev is_early : Options → Conn → ℕ → Bool
is_early o c now =
    last_activity c == 0
    || ltb now (last_activity c)
    || ltb (now - last_activity c) (ping_interval_usec o)

beating : (o : Options) (c : Conn) (now : ℕ) → is_off o c now ≡ false → is_beating o c ≡ true
beating o c now a = ground (arith, a)

no_late :
    (o : Options) (c : Conn) (now : ℕ)
    → c.awaiting_pong ≡ true
    → ((0 < c.last_ping_usec) × (c.last_ping_usec + pong_timeout_usec o ≤ now)
        → is_late o c now ≡ true)
    → is_late o c now ≡ false
    → PongIsLate o c now ⊎ PingIsDue o c now
    → ⊥
no_late o c now b k d (inl l) = let t = k (l.1, l.2) in cc
no_late o c now b k d (inr l) = let f = l.0 in cc

no_due :
    (o : Options) (c : Conn) (now : ℕ)
    → c.awaiting_pong ≡ false
    → ((0 < last_activity c) × (last_activity c + ping_interval_usec o ≤ now)
        → is_early o c now ≡ false)
    → is_early o c now ≡ true
    → PongIsLate o c now ⊎ PingIsDue o c now
    → ⊥
no_due o c now b k d (inl l) = let f = l.0 in cc
no_due o c now b k d (inr l) = let t = k (l.1, l.2) in cc

-- Behind the guards the heartbeat is on; in front of them nothing is due.
guarded :
    (o : Options) (c : Conn) (now : ℕ)
    → is_off o c now ≡ true
    → is_beating o c ≡ true
    → PongIsLate o c now ⊎ PingIsDue o c now
    → ⊥
guarded o c now a on (inl l) = ground (arith, a, on, l.1, l.2)
guarded o c now a on (inr l) = ground (arith, a, on, l.1, l.2)

-- The heartbeat returns true. If it is on and the answer to the last ping is late, the connection
-- is closing behind it; if no ping is out and the connection has been silent for the interval, a
-- ping has been sent and its time is noted, or the connection is closing; in every other case,
-- nothing has changed.
pub process_heartbeat-Beats :
    (e : Endian) (o : Options) (c : Conn) (net : Net) (now : ℕ)
    → Beats e o c net now (process_heartbeat e o c net now)
unfolding process_heartbeat
process_heartbeat-Beats e o c net now =
    let late = late_iff now c.last_ping_usec (pong_timeout_usec o) in
    let due = due_iff now (last_activity c) (ping_interval_usec o) in
    by_branch (Beats e o c net now) (is_off o c now) c.awaiting_pong (is_late o c now)
      (is_early o c now) _ _ _ (λ a. (refl, inr (inr (guarded o c now a, refl))))
      (λ a b d. (
        close_with_code-true e c net _ _,
        inl (
          beating o c now a,
          (b, (late.0 d).0, (late.0 d).1),
          close_with_code-closing e c net _ _,
        ),
      ))
      (λ a b d. (refl, inr (inr (λ on x. no_late o c now b (late.1) d x, refl))))
      (λ a b d. (refl, inr (inr (λ on x. no_due o c now b (due.1) d x, refl))))
      (λ a b d.
        (let p = after_ping-Beats e c net now (send_frame e c net [] opcode_ping) refl in
          (p.0, inr (inl (beating o c now a, (b, (due.0 d).0, (due.0 d).1), p.1)))))
