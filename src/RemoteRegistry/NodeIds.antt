-- ===== src/RemoteRegistry/NodeIds.antt =====
-- The list of node ids of an entry: no id stands in it twice; and what adding and erasing an id does
-- to it, as functions of their own.
use objectlink_core_cpp.Prelude.{
  ℕ, ◌≡◌, refl, true, false, List, [], ◌∷◌, ◌++◌, ◌==◌, ==_iff, arith, if◌then◌else◌, ap, sym, ◌∙◌,
  subst,
}
use objectlink_core_cpp.Map.{nat_key, elem}
use objectlink_core_cpp.RemoteRegistry.{add_once, erase_first}

abbrev pub IsNodup : List ℕ → Type 0
IsNodup [] = Unit {0}
IsNodup (n ∷ ns) = (elem n ns ≡ false) × IsNodup ns

elem-append_one :
    (id j : ℕ) (ns : List ℕ) → elem j (ns ++ id ∷ []) ≡ (if id == j then true else elem j ns)
unfolding elem
elem-append_one id j [] = refl
elem-append_one id j (n ∷ ns) = ground (arith, elem-append_one id j ns)

append_one-IsNodup :
    (id : ℕ) (ns : List ℕ) → elem id ns ≡ false → IsNodup ns → IsNodup (ns ++ id ∷ [])
unfolding elem
append_one-IsNodup id [] h d = (refl, tt)
append_one-IsNodup id (n ∷ ns) h d =
    ground (arith, append_one-IsNodup id ns, elem-append_one id n ns, d)

-- The list with an id, at its end if the id was not there.
pub listed : ℕ → List ℕ → List ℕ
listed id [] = id ∷ []
listed id (n ∷ ns) = n ∷ (if n == id then ns else listed id ns)

-- The part of the list up to the first occurrence of an id, and the part behind it.
pub before : ℕ → List ℕ → List ℕ
before id [] = []
before id (n ∷ ns) = if n == id then [] else n ∷ before id ns

pub behind : ℕ → List ℕ → List ℕ
behind id [] = []
behind id (n ∷ ns) = if n == id then ns else behind id ns

-- The list without the first occurrence of an id.
pub unlisted : ℕ → List ℕ → List ℕ
unlisted id ns = before id ns ++ behind id ns

pub add_once-listed : (id : ℕ) (ns : List ℕ) → add_once id ns ≡ listed id ns
unfolding add_once elem listed
add_once-listed id [] = refl
add_once-listed id (n ∷ ns) = ground (arith, add_once-listed id ns)

pub erase_first-unlisted : (id : ℕ) (ns : List ℕ) → erase_first id ns ≡ unlisted id ns
unfolding erase_first unlisted before behind
erase_first-unlisted id [] = refl
erase_first-unlisted id (n ∷ ns) =
    ground (arith, erase_first-unlisted id ns, ==_iff id n, ==_iff n id)

pub add_once-IsNodup : (id : ℕ) (ns : List ℕ) → IsNodup ns → IsNodup (add_once id ns)
unfolding add_once
add_once-IsNodup id ns d = ground (arith, append_one-IsNodup id ns)

pub elem-add_once :
    (id j : ℕ) (ns : List ℕ) → elem j (add_once id ns) ≡ (if id == j then true else elem j ns)
unfolding add_once
elem-add_once id j ns = ground (arith, elem-append_one id j ns, ==_iff id j)

-- Another id is there after an erasure as before; the erased one is not, if it stood there once.
pub elem-erase_first :
    (id j : ℕ) (ns : List ℕ)
    → IsNodup ns
    → elem j (erase_first id ns) ≡ (if id == j then false else elem j ns)
unfolding elem erase_first
elem-erase_first id j [] d = ground arith
elem-erase_first id j (n ∷ ns) d =
    ground (arith, elem-erase_first id j ns d.1, ==_iff id j, ==_iff id n, ==_iff n j)

pub erase_first-IsNodup : (id : ℕ) (ns : List ℕ) → IsNodup ns → IsNodup (erase_first id ns)
unfolding erase_first
erase_first-IsNodup id [] d = tt
erase_first-IsNodup id (n ∷ ns) d =
    ground (arith, erase_first-IsNodup id ns d.1, elem-erase_first id n ns d.1)

pub elem-listed :
    (id j : ℕ) (ns : List ℕ) → elem j (listed id ns) ≡ (if id == j then true else elem j ns)
elem-listed id j ns = ap (elem j) (sym (add_once-listed id ns)) ∙ elem-add_once id j ns

pub listed-IsNodup : (id : ℕ) (ns : List ℕ) → IsNodup ns → IsNodup (listed id ns)
listed-IsNodup id ns d = subst IsNodup (add_once-listed id ns) (add_once-IsNodup id ns d)

pub elem-unlisted :
    (id j : ℕ) (ns : List ℕ)
    → IsNodup ns
    → elem j (unlisted id ns) ≡ (if id == j then false else elem j ns)
elem-unlisted id j ns d =
    ap (elem j) (sym (erase_first-unlisted id ns)) ∙ elem-erase_first id j ns d

pub unlisted-IsNodup : (id : ℕ) (ns : List ℕ) → IsNodup ns → IsNodup (unlisted id ns)
unlisted-IsNodup id ns d = subst IsNodup (erase_first-unlisted id ns) (erase_first-IsNodup id ns d)
