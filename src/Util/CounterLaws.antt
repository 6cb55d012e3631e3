-- ===== src/Util/CounterLaws.antt =====
-- What the reference counts of includes/util/rc.h do.
use weird_os.Base.{
  ℕ, ◌+◌, ◌<◌, ◌≡◌, ◌≢◌, refl, sym, ap, ◌∙◌, arith, ◌==◌, if◌then◌else◌, true, false, Option, none,
  some, ◌∷◌, Bool-cases, inl, inr, add32, sub32, add32-eq-add, sub32-eq-sub, ==_iff,
}
use weird_os.Util.Counters.{
  RcCounter, Store, Rc, write_counter, put_counter, change, and_then, more, fewer, fewer_weak,
  delete_both, release, rc_copy, rc_assign, rc_drop, weak_drop,
}

change-some :
    (p : ℕ) (f : RcCounter → RcCounter) (s : Store) {c : RcCounter}
    → s.counters p ≡ some c
    → change p f s ≡ some (put_counter p (some (f c)) s)
unfolding change
change-some p f s h = rw (change, h) refl

change-none :
    (p : ℕ) (f : RcCounter → RcCounter) (s : Store) → s.counters p ≡ none → change p f s ≡ none
unfolding change
change-none p f s h = rw (change, h) refl

write_counter-here :
    (f : ℕ → Option RcCounter) (p : ℕ) (c : Option RcCounter) → write_counter f p c p ≡ c
unfolding write_counter
write_counter-here f p c = ground arith

release-some :
    (r : Rc) (t : Store) {c : RcCounter}
    → t.counters r.counter ≡ some c
    → release r t ≡ (if c.count == 0 then some (delete_both r t) else some t)
unfolding release
release-some r t h = rw (release, h) refl

-- Two writes at a place of which the second restores what was there.
restored :
    (f : ℕ → Option RcCounter) (p a : ℕ) (c d e : RcCounter)
    → f p ≡ some e
    → d ≡ e
    → write_counter (write_counter f p (some c)) p (some d) a ≡ f a
unfolding write_counter
restored f p a c d e h same = elim (Bool-cases (a == p)) [
  | inl here ↦ rw (here, same, (==_iff a p).0 here) (sym h)
  | inr there ↦ rw there refl
]

write_counter-there :
    (f : ℕ → Option RcCounter) (p a : ℕ) (c : Option RcCounter)
    → p ≢ a
    → write_counter f p c a ≡ f a
unfolding write_counter
write_counter-there f p a c differ = ground arith

-- Dropping the last rc deletes the object and the counter, whatever the number of weak pointers.
-- So the destructor of a weak pointer to the object reads a deleted counter.
pub rc_drop-weak_drop :
    (r w : Rc) (s : Store) (c : RcCounter)
    → r.ptr ≢ 0
    → s.counters r.counter ≡ some c
    → c.count ≡ 1
    → w.counter ≡ r.counter
    → (s' : Store) × (rc_drop r s ≡ some s')
      × (s'.deleted ≡ r.ptr ∷ s.deleted)
      × (s'.counters r.counter ≡ none)
      × (weak_drop w s' ≡ none)
unfolding rc_drop weak_drop
rc_drop-weak_drop r w s c object held one same =
    let nz : (r.ptr == 0) ≡ false = ground arith in
    let down = write_counter-here s.counters r.counter (some (fewer c)) in
    let zero_count : (sub32 c.count 1 == 0) ≡ true = rw one (unfold sub32 in refl) in
    let t : Store = put_counter r.counter (some (fewer c)) s in
    let gone = write_counter-here t.counters r.counter none in
    (
      delete_both r t,
      rw (nz, change-some r.counter fewer s held, release-some r t down, zero_count) refl,
      refl,
      gone,
      rw (same, change-none r.counter fewer_weak (delete_both r t) gone) refl,
    )

-- Copying an rc to an object whose count is neither 0 nor the greatest number, and dropping the
-- copy, leaves every counter as it was and deletes nothing.
pub rc_copy-rc_drop :
    (r : Rc) (s : Store) (c : RcCounter)
    → r.ptr ≢ 0
    → s.counters r.counter ≡ some c
    → 0 < c.count
    → c.count + 1 < 0x1_0000_0000
    → (s' : Store) × (and_then (rc_copy r s) (rc_drop r) ≡ some s')
      × (s'.deleted ≡ s.deleted)
      × ((a : ℕ) → s'.counters a ≡ s.counters a)
unfolding rc_copy rc_drop
rc_copy-rc_drop r s c object held some_rc word =
    let object_test : (r.ptr == 0) ≡ false = ground arith in
    let up : add32 c.count 1 ≡ c.count + 1 = add32-eq-add c.count 1 word in
    let t : Store = put_counter r.counter (some (more c)) s in
    let held' = write_counter-here s.counters r.counter (some (more c)) in
    let u : Store = put_counter r.counter (some (fewer (more c))) t in
    let back : sub32 (add32 c.count 1) 1 ≡ c.count =
      rw up (sub32-eq-sub (c.count + 1) 1 (omega arith) word ∙ omega arith) in
    let here = write_counter-here t.counters r.counter (some (fewer (more c))) in
    let nz : (c.count == 0) ≡ false = ground arith in
    (
      u,
      rw
          (
            change-some r.counter more s held,
            object_test,
            change-some r.counter fewer t held',
            release-some r u here,
            back,
            nz,
          )
          refl,
      refl,
      λ a.
          restored s.counters r.counter a (more c) (fewer (more c)) c held
            (ap (λ n. record c { count = n }) back),
    )

-- Assigning an rc with another counter over the last rc to an object counts the object out but does
-- not delete it.
pub rc_assign-leaks :
    (this r : Rc) (s : Store) (c d : RcCounter)
    → this.counter ≢ 0
    → r.counter ≢ 0
    → r.counter ≢ this.counter
    → s.counters this.counter ≡ some c
    → s.counters r.counter ≡ some d
    → c.count ≡ 1
    → (s' : Store) × (rc_assign this r s ≡ some s')
      × (s'.counters this.counter ≡ some (record c { count = 0 }))
      × (s'.counters r.counter ≡ some (record d { count = add32 d.count 1 }))
      × (s'.deleted ≡ s.deleted)
unfolding rc_assign
rc_assign-leaks this r s c d some_this some_r differ held held' one =
    let nz : (this.counter == 0) ≡ false = ground arith in
    let nz' : (r.counter == 0) ≡ false = ground arith in
    let t : Store = put_counter this.counter (some (fewer c)) s in
    let held'' : t.counters r.counter ≡ some d = unfold write_counter in ground arith in
    (
      put_counter r.counter (some (more d)) t,
      rw (nz, change-some this.counter fewer s held, nz', change-some r.counter more t held'') refl,
      write_counter-there t.counters r.counter this.counter (some (more d)) differ
          ∙ write_counter-here s.counters this.counter (some (fewer c))
          ∙ ap (λ n. some (record c { count = n })) (rw one (unfold sub32 in refl)),
      write_counter-here t.counters r.counter (some (more d)),
      refl,
    )
