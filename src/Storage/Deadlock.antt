-- ===== src/Storage/Deadlock.antt =====
-- The search of `add` for a stored object, while other threads let objects go: for each entry it has
-- a shared pointer for a moment, under the mutex. The destructor of a node removes the id of the node
-- (by `unregisterNode`), and so takes the same mutex.
use objectlink_core_cpp.Prelude.{
  ℕ, ◌+◌, ◌-◌, ◌<◌, ◌≡◌, ◌≢◌, refl, Bool, true, false, [], ◌∷◌, Option, none, some, ◌==◌, ==_iff,
  arith, if◌then◌else◌,
}
use objectlink_core_cpp.Map.{nat_key, Map}
use objectlink_core_cpp.Storage.{WeakPtr, expired}

-- Where the thread in `add` is.
pub data Position : Type 0 where
  -- at the first of the entries that are left, and what it looks for
  searching : ℕ → Map ℕ WeakPtr → Position
  -- with a shared pointer to the object of an entry
  comparing : ℕ → ℕ → ℕ → Map ℕ WeakPtr → Position
  -- in the destructor of an object that it was the last owner of, before the mutex in `remove`
  destroying : ℕ → ℕ → ℕ → Map ℕ WeakPtr → Position
  -- behind the search
  searched : Option ℕ → Position

pub record Search : Type 0 where
  pub position : Position
  -- the thread that has the mutex
  pub mutex : Option ℕ
  -- the number of shared pointers to an object
  pub owners : ℕ → ℕ

abbrev pub count : ℕ → ℕ → (ℕ → ℕ) → ℕ → ℕ
count p n owners q = if p == q then n else owners q

-- Whether an object has an owner.
abbrev pub live : (ℕ → ℕ) → ℕ → Bool
live owners p = if owners p == 0 then false else true

-- `self` is the thread in `add`.
pub data Step (self : ℕ) (s : Search) : Search → Type 0 where
  -- current.second.expired(), or lock() finds no owner any more
  skip :
      (o i : ℕ) (w : WeakPtr) (rest : Map ℕ WeakPtr)
      → s.position ≡ searching o ((i, w) ∷ rest)
      → expired (live s.owners) w ≡ true
      → Step self s (record s { position = searching o rest })
  -- current.second.lock()
  lock :
      (o i p : ℕ) (rest : Map ℕ WeakPtr)
      → s.position ≡ searching o ((i, some p) ∷ rest)
      → live s.owners p ≡ true
      → Step self s
          (record s { position = comparing o i p rest; owners = count p (s.owners p + 1) s.owners })
  -- … == lockedObject, after which the pointer is let go
  same :
      (o i p : ℕ) (rest : Map ℕ WeakPtr)
      → s.position ≡ comparing o i p rest
      → p ≡ o
      → Step self s
          (record s { position = searched (some i); owners = count p (s.owners p - 1) s.owners })
  other :
      (o i p : ℕ) (rest : Map ℕ WeakPtr)
      → s.position ≡ comparing o i p rest
      → p ≢ o
      → 1 < s.owners p
      → Step self s
          (record s { position = searching o rest; owners = count p (s.owners p - 1) s.owners })
  last :
      (o i p : ℕ) (rest : Map ℕ WeakPtr)
      → s.position ≡ comparing o i p rest
      → p ≢ o
      → s.owners p ≡ 1
      → Step self s (record s { position = destroying o i p rest; owners = count p 0 s.owners })
  -- the lock in `remove`, which waits until no thread has the mutex
  removes :
      (o i p : ℕ) (rest : Map ℕ WeakPtr)
      → s.position ≡ destroying o i p rest
      → s.mutex ≡ none
      → Step self s (record s { position = searching o rest })
  ends : (o : ℕ) → s.position ≡ searching o [] → Step self s (record s { position = searched none })
  -- the mutex is let go at the end of `add`
  leaves :
      (r : Option ℕ)
      → s.position ≡ searched r
      → s.mutex ≡ some self
      → Step self s (record s { mutex = none })
  -- other threads let an owner go, take the mutex when it is free, and let it go
  drops : (p n : ℕ) → s.owners p ≡ n + 1 → Step self s (record s { owners = count p n s.owners })
  takes : (t : ℕ) → s.mutex ≡ none → Step self s (record s { mutex = some t })
  frees : (t : ℕ) → t ≢ self → s.mutex ≡ some t → Step self s (record s { mutex = none })

pub data Reach (self : ℕ) (s : Search) : Search → Type 0 where
  here : Reach self s s
  next : {t u : Search} → Reach self s t → Step self t u → Reach self s u

-- The thread waits for the mutex that it has.
pub record IsStuck (self : ℕ) (s : Search) : Type 0 where
  pub waits :
      (o : ℕ) × (i : ℕ) × (p : ℕ) × (rest : Map ℕ WeakPtr) × (s.position ≡ destroying o i p rest)
  pub has : s.mutex ≡ some self

-- A deadlock of `add`: from any state in which a thread is in the search for the object, with the
-- mutex, at an entry of another object that has one owner, steps lead to a state in which the
-- thread is in the destructor of that object and waits in `remove` for the mutex that it has
-- itself.
pub add_can_hang :
    (self o i p : ℕ) (rest : Map ℕ WeakPtr) (s : Search)
    → s.mutex ≡ some self
    → s.position ≡ searching o ((i, some p) ∷ rest)
    → p ≢ o
    → s.owners p ≡ 1
    → (t : Search) × Reach self s t × IsStuck self t
add_can_hang self o i p rest s m at ne one = (
  _,
  next
      (next (next here (lock o i p rest at (ground (arith, one))))
        (drops p 1 (ground (arith, one, ==_iff p p))))
      (last o i p rest refl ne (ground (arith, ==_iff p p))),
  record { waits = (o, i, p, rest, refl); has = m },
)
