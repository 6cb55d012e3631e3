-- ===== src/Util/Counters.antt =====
-- The reference counts of includes/util/rc.h. A counter that was deleted is `none`; an access to it
-- makes the operation fail. `deleted` lists the objects that were deleted, the last one first.
use weird_os.Base.{ℕ, ◌==◌, ◌&&◌, if◌then◌else◌, Bool, Option, none, some, List, ◌∷◌, add32, sub32}

pub record RcCounter : Type 0 where
  pub count : ℕ
  pub weak_count : ℕ

pub record Store : Type 0 where
  pub counters : ℕ → Option RcCounter
  pub deleted : List ℕ

-- An rc or a weak: the address of the object, 0 if there is none, and of the counter.
pub record Rc : Type 0 where
  pub ptr : ℕ
  pub counter : ℕ

unfoldable pub write_counter : (ℕ → Option RcCounter) → ℕ → Option RcCounter → ℕ → Option RcCounter
write_counter f p c a = if a == p then c else f a

abbrev pub put_counter : ℕ → Option RcCounter → Store → Store
put_counter p c s = record s { counters = write_counter s.counters p c }

-- `*counter = f(*counter)`
unfoldable pub change : ℕ → (RcCounter → RcCounter) → Store → Option Store
change p f s = elim (s.counters p) [ none ↦ none | some c ↦ some (put_counter p (some (f c)) s) ]

abbrev pub and_then : Option Store → (Store → Option Store) → Option Store
and_then none k = none
and_then (some s) k = k s

abbrev pub more : RcCounter → RcCounter
more c = record c { count = add32 c.count 1 }

abbrev pub fewer : RcCounter → RcCounter
fewer c = record c { count = sub32 c.count 1 }

abbrev pub more_weak : RcCounter → RcCounter
more_weak c = record c { weak_count = add32 c.weak_count 1 }

abbrev pub fewer_weak : RcCounter → RcCounter
fewer_weak c = record c { weak_count = sub32 c.weak_count 1 }

-- `delete ptr; delete counter`
abbrev pub delete_both : Rc → Store → Store
delete_both r s = record {
  counters = write_counter s.counters r.counter none;
  deleted = r.ptr ∷ s.deleted;
}

-- rc(T *ptr), with its counter at `fresh`.
unfoldable pub rc_new : (ptr fresh : ℕ) → Store → Rc × Store
rc_new ptr fresh s = (
  record { ptr = ptr; counter = fresh },
  put_counter fresh (some (record { count = 1; weak_count = 0 })) s,
)

-- rc(), with its counter at `fresh`.
unfoldable pub rc_empty : (fresh : ℕ) → Store → Rc × Store
rc_empty fresh s = (
  record { ptr = 0; counter = fresh },
  put_counter fresh (some (record { count = 0; weak_count = 0 })) s,
)

-- The copy constructors; the copy is the same record. `lock` of a weak does the same.
unfoldable pub rc_copy : Rc → Store → Option Store
rc_copy other s = change other.counter more s

unfoldable pub rc_assign : (this r : Rc) → Store → Option Store
rc_assign this r s =
    and_then (if this.counter == 0 then some s else change this.counter fewer s)
      (λ t. if r.counter == 0 then some t else change r.counter more t)

-- `if (counter->count == 0) { delete ptr; delete counter; }`
unfoldable pub release : Rc → Store → Option Store
release this t = elim (t.counters this.counter) [
  | none ↦ none
  | some c ↦ if c.count == 0 then some (delete_both this t) else some t
]

-- ~rc()
unfoldable pub rc_drop : Rc → Store → Option Store
rc_drop this s =
    if this.ptr == 0 then some s else and_then (change this.counter fewer s) (release this)

unfoldable pub weak_copy : Rc → Store → Option Store
weak_copy other s = change other.counter more_weak s

unfoldable pub weak_assign : (this r : Rc) → Store → Option Store
weak_assign this r s =
    and_then (change this.counter fewer_weak s) (λ t. change r.counter more_weak t)

-- ~weak()
unfoldable pub weak_drop : Rc → Store → Option Store
weak_drop this s = and_then (change this.counter fewer_weak s) (λ t.
    elim (t.counters this.counter) [
      | none ↦ none
      | some c ↦ if c.weak_count == 0 && c.count == 0 then some (delete_both this t) else some t
    ])

unfoldable pub expired : Rc → Store → Option Bool
expired this s = elim (s.counters this.counter) [ none ↦ none | some c ↦ some (c.count == 0) ]
