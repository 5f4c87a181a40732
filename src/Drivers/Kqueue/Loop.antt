-- ===== src/Drivers/Kqueue/Loop.antt =====
-- The loops over `kevent`: they end, and make their change.
use php_websocket.Base.{
  ℕ, zero, suc, ◌≤◌, ◌<◌, ◌≡◌, refl, ap₂, ◌∙◌, Bool, true, false, ◌&&◌, Option, none, some, ◌==◌,
  if◌then◌else◌, Bool-cases, inl, inr, arith,
}
use php_websocket.Connection.State.{Errno}
use php_websocket.Connection.Queue.{is_interrupt}
use php_websocket.Drivers.Epoll.{World}
use php_websocket.Drivers.Kqueue.{
  Filter, filter_read, filter_write, Change, ev_add, ev_delete, or_again, change_loop,
}
use php_websocket.Drivers.Kqueue.Kernel.{
  Knotes, is_same, Same, Becomes, Perhaps, Answers, interrupted, Kqueue,
}

-- What a change leaves, behind nothing or behind the same change.
module _ (fd : ℕ) (f : Filter) (b : Bool) (old mid new : Knotes) where
  twice : Becomes fd f b old mid → Becomes fd f b mid new → Becomes fd f b old new
  twice p q x g = elim (Bool-cases ((x == fd) && is_same g f)) [
    | inl t ↦ let e = q x g in rw t (rw t at e)
    | inr t ↦ let e = q x g in let d = p x g in rw t ((rw t at e) ∙ (rw t at d))
  ]

  Same-then : Same old mid → Becomes fd f b mid new → Becomes fd f b old new
  Same-then p q x g = elim (Bool-cases ((x == fd) && is_same g f)) [
    | inl t ↦ let e = q x g in rw t (rw t at e)
    | inr t ↦ let e = q x g in rw t ((rw t at e) ∙ p x g)
  ]

  Becomes-behind : Perhaps fd f b old mid → Becomes fd f b mid new → Becomes fd f b old new
  Becomes-behind (inl s) q = Same-then s q
  Becomes-behind (inr p) q = twice p q

  Same-behind : Perhaps fd f b old mid → Same mid new → Perhaps fd f b old new
  Same-behind (inl s) q = inl (λ x g. q x g ∙ s x g)
  Same-behind (inr p) q = inr (λ x g. q x g ∙ p x g)

is_same_refl : (g f : Filter) → is_same g f ≡ true → g ≡ f
is_same_refl filter_read filter_read e = refl
is_same_refl filter_write filter_write e = refl
is_same_refl filter_read filter_write e = absurd (cc)
is_same_refl filter_write filter_read e = absurd (cc)

-- To remove what is not there changes nothing.
removed_old :
    (fd : ℕ) (f : Filter) (old new : Knotes)
    → old fd f ≡ false
    → Same old new
    → Becomes fd f false old new
removed_old fd f old new h s x g = elim (Bool-cases ((x == fd) && is_same g f)) [
  | inr t ↦ rw t (s x g)
  | inl t ↦
      let here : x ≡ fd = ground (arith, t) in
      let filter = is_same_refl g f (ground (arith, t)) in
      rw t (s x g ∙ ap₂ (λ y h'. old y h') here filter ∙ h)
]

-- What the loop leaves: a registered filter, or, if it fails, perhaps nothing; and no filter.
abbrev pub Made : Change → Bool → Knotes → Knotes → Type 0
Made (ev_add fd f) true old new = Becomes fd f true old new
Made (ev_add fd f) false old new = Perhaps fd f true old new
Made (ev_delete fd f) ok' old new = Becomes fd f false old new

abbrev Mid : Change → Knotes → Knotes → Type 0
Mid (ev_add fd f) old mid = Perhaps fd f true old mid
Mid (ev_delete fd f) old mid = Perhaps fd f false old mid

Made-behind :
    (change : Change) (ok' : Bool) (old mid new : Knotes)
    → Mid change old mid
    → Made change ok' mid new
    → Made change ok' old new
Made-behind (ev_add fd f) true old mid new p q = Becomes-behind fd f true old mid new p q
Made-behind (ev_add fd f) false old mid new p (inl q) = Same-behind fd f true old mid new p q
Made-behind (ev_add fd f) false old mid new p (inr q) =
    inr (Becomes-behind fd f true old mid new p q)
Made-behind (ev_delete fd f) ok' old mid new p q = Becomes-behind fd f false old mid new p q

answer-Mid :
    (change : Change) (x : Errno) (old new : Knotes)
    → is_interrupt x ≡ true
    → Answers change (some x) old new
    → Mid change old new
answer-Mid (ev_add fd f) x old new i h = rw i at h
answer-Mid (ev_delete fd f) x old new i h = rw i at h

made_ok :
    (change : Change) (old new : Knotes) → Answers change none old new → Made change true old new
made_ok (ev_add fd f) old new h = h
made_ok (ev_delete fd f) old new h = h

made_failed :
    (change : Change) (x : Errno) (old new : Knotes)
    → is_interrupt x ≡ false
    → Answers change (some x) old new
    → Made change false old new
made_failed (ev_add fd f) x old new i h = inl (rw i at h)
made_failed (ev_delete fd f) x old new i h =
    let (gone, same) = rw i at h in removed_old fd f old new gone same

module _ {K : Type 0} (os : Kqueue K) (kq : ℕ) where
  abbrev pub list : K → Knotes
  list k = os.knotes kq k

  -- The loop ends, and has made its change; no more interrupts can come than before.
  abbrev pub Ends : Change → K → Option (Bool × World K) → Type 0
  Ends change k none = ⊥
  Ends change k (some (ok', w)) =
      Made change ok' (list k) (list w.kernel) × (os.interrupts w.kernel ≤ os.interrupts k)

  Ends-behind :
      (change : Change) (k mid : K) (r : Option (Bool × World K))
      → Mid change (list k) (list mid)
      → os.interrupts mid < os.interrupts k
      → Ends change mid r
      → Ends change k r
  Ends-behind change k mid none m l h = h
  Ends-behind change k mid (some (ok', w)) m l h =
      (Made-behind change ok' (list k) (list mid) (list w.kernel) m h.0, omega (arith, l, h.1))

  abbrev Known : Change → K → Option Errno × K → Type 0
  Known change k (e, k') =
      Answers change e (list k) (list k')
      × (if interrupted e
          then (os.interrupts k' < os.interrupts k)
          else (os.interrupts k' ≡ os.interrupts k))

  or_again-Ends :
      (change : Change) (k : K) (errno : Errno) (again : World K → Option (Bool × World K))
      (a : Option Errno × K)
      → Known change k a
      → ((w : World K) → os.interrupts w.kernel < os.interrupts k → Ends change w.kernel (again w))
      → Ends change k (or_again again errno a)
  or_again-Ends change k errno again (none, k') h ih =
      (made_ok change (list k) (list k') h.0, omega (arith, h.1))
  or_again-Ends change k errno again (some x, k') h ih = elim (Bool-cases (is_interrupt x)) [
    | inl i ↦
        let l : os.interrupts k' < os.interrupts k = (let c = h.1 in rw i at c) in
        rw i (
          Ends-behind change k k' _ (answer-Mid change x (list k) (list k') i h.0) l
            (ih (record { kernel = k'; errno = x }) l))
    | inr i ↦
        let l : os.interrupts k' ≡ os.interrupts k = (let c = h.1 in rw i at c) in
        rw i (made_failed change x (list k) (list k') i h.0, omega (arith, l))
  ]

  pub change_loop-Ends :
      (fuel : ℕ) (change : Change) (w : World K)
      → os.interrupts w.kernel < fuel
      → Ends change w.kernel (change_loop os.kevent fuel kq change w)
  unfolding change_loop
  change_loop-Ends zero change w l = absurd (omega arith)
  change_loop-Ends (suc fuel) change w l =
      or_again-Ends change w.kernel w.errno _ (os.kevent kq change w.kernel)
        (os.answers kq change w.kernel, os.interrupts_end kq change w.kernel)
        (λ w' l'. change_loop-Ends fuel change w' (omega (arith, l, l')))
