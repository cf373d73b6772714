-- ===== src/Zone/Node/Laws.antt =====
-- A node as a set of records: what adding and removing do to it, and to its size.
use dnssec_auditor.Common.{
  ℕ, ◌+◌, ◌<◌, Str, str_eq, nat_eq, ◌==◌, Bool, true, false, not, ◌&&◌, ◌||◌, List, [], ◌∷◌, ◌++◌,
  ◌≡◌, refl, arith, if◌then◌else◌, Bool-cases, inl, inr, contains, length, sum_by, length-append,
  none,
}
use dnssec_auditor.Zone.RrSet.{RrSet}
use dnssec_auditor.Zone.Node.{
  find_set, set_size, add_to, add_rdata, drop_first, shrink, remove_from,
}

-- The record with this type and rdata is there.
unfoldable pub member : ℕ → Str → List RrSet → Bool
member t rd [] = false
member t rd (s ∷ ss) = if s.rrtype == t then contains rd s.rdata else member t rd ss

abbrev pub NoDup : List Str → Type 0
NoDup [] = Unit
NoDup (x ∷ xs) = (contains x xs ≡ false) × NoDup xs

-- One RRset for each type, no rdata twice, and no empty RRset.
abbrev pub WellFormed : List RrSet → Type 0
WellFormed [] = Unit
WellFormed (s ∷ ss) =
    (find_set s.rrtype ss ≡ none) × NoDup s.rdata × (0 < length s.rdata) × WellFormed ss

contains-append :
    (x y : Str) (xs : List Str) → contains x (xs ++ y ∷ []) ≡ contains x xs || (y == x)
contains-append x y [] = ground arith
contains-append x y (z ∷ xs) = ground (arith, contains-append x y xs)

NoDup-append : (y : Str) (xs : List Str) → NoDup xs → contains y xs ≡ false → NoDup (xs ++ y ∷ [])
NoDup-append y [] h c = ground arith
NoDup-append y (x ∷ xs) h c =
    ground
      (arith, contains-append x y xs, NoDup-append y xs h.1, str_eq.beq_iff x y, str_eq.beq_iff y x)

find_set-add_to :
    (t ttl : ℕ) (rd : Str) (u : ℕ) (ss : List RrSet)
    → (t == u) ≡ false
    → find_set u ss ≡ none
    → find_set u (add_to t ttl rd ss) ≡ none
unfolding find_set add_to
find_set-add_to t ttl rd u [] h e = ground arith
find_set-add_to t ttl rd u (s ∷ ss) h e = ground (arith, find_set-add_to t ttl rd u ss h)

add_rdata-NoDup :
    (ttl : ℕ) (rd : Str) (s : RrSet) → NoDup s.rdata → NoDup (add_rdata ttl rd s).rdata
unfolding add_rdata
add_rdata-NoDup ttl rd s h = ground (arith, NoDup-append rd s.rdata h)

rrtype-add_rdata : (ttl : ℕ) (rd : Str) (s : RrSet) → (add_rdata ttl rd s).rrtype ≡ s.rrtype
unfolding add_rdata
rrtype-add_rdata ttl rd s = ground arith

length-add_rdata :
    (ttl : ℕ) (rd : Str) (s : RrSet)
    → length (add_rdata ttl rd s).rdata ≡ length s.rdata + (if contains rd s.rdata then 0 else 1)
unfolding add_rdata
length-add_rdata ttl rd s = ground (arith, length-append s.rdata (rd ∷ []))

pub add_to-WellFormed :
    (t ttl : ℕ) (rd : Str) (ss : List RrSet) → WellFormed ss → WellFormed (add_to t ttl rd ss)
unfolding add_to
add_to-WellFormed t ttl rd [] h = unfold find_set in ground arith
add_to-WellFormed t ttl rd (s ∷ ss) h = elim (Bool-cases (s.rrtype == t)) [
  | inl here ↦ rw here (
    rw rrtype-add_rdata h.0,
    add_rdata-NoDup ttl rd s h.1,
    ground (arith, length-add_rdata ttl rd s, h.2),
    h.3,
  )
  | inr other ↦ rw other (
    find_set-add_to t ttl rd s.rrtype ss (ground arith) h.0,
    h.1,
    h.2,
    add_to-WellFormed t ttl rd ss h.3,
  )
]

contains-add_rdata :
    (ttl : ℕ) (rd x : Str) (s : RrSet)
    → contains x (add_rdata ttl rd s).rdata ≡ contains x s.rdata || (rd == x)
unfolding add_rdata
contains-add_rdata ttl rd x s = ground (arith, contains-append x rd s.rdata, str_eq.beq_iff rd x)

-- Adding a record adds that record, and nothing else.
pub member-add_to :
    (t ttl : ℕ) (rd : Str) (u : ℕ) (x : Str) (ss : List RrSet)
    → member u x (add_to t ttl rd ss) ≡ member u x ss || (t == u && rd == x)
unfolding member add_to
member-add_to t ttl rd u x [] = ground arith
member-add_to t ttl rd u x (s ∷ ss) =
    ground (
      arith,
      rrtype-add_rdata ttl rd s,
      contains-add_rdata ttl rd x s,
      member-add_to t ttl rd u x ss,
    )

-- The count grows by one exactly if the record was not there.
pub count-add_to :
    (t ttl : ℕ) (rd : Str) (ss : List RrSet)
    → sum_by set_size (add_to t ttl rd ss) ≡ sum_by set_size ss + (if member t rd ss then 0 else 1)
unfolding member add_to
count-add_to t ttl rd [] = ground arith
count-add_to t ttl rd (s ∷ ss) = ground (arith, length-add_rdata ttl rd s, count-add_to t ttl rd ss)

contains-drop_first :
    (rd x : Str) (xs : List Str)
    → NoDup xs
    → contains x (drop_first rd xs) ≡ contains x xs && not (rd == x)
unfolding drop_first
contains-drop_first rd x [] h = refl
contains-drop_first rd x (y ∷ xs) h = ground (
  arith,
  contains-drop_first rd x xs h.1,
  str_eq.beq_iff y rd,
  str_eq.beq_iff y x,
  str_eq.beq_iff rd x,
)

NoDup-drop_first : (rd : Str) (xs : List Str) → NoDup xs → NoDup (drop_first rd xs)
unfolding drop_first
NoDup-drop_first rd [] h = tt
NoDup-drop_first rd (y ∷ xs) h =
    ground (arith, contains-drop_first rd y xs h.1, NoDup-drop_first rd xs h.1)

length-drop_first :
    (rd : Str) (xs : List Str)
    → length (drop_first rd xs) + (if contains rd xs then 1 else 0) ≡ length xs
unfolding drop_first
length-drop_first rd [] = omega arith
length-drop_first rd (y ∷ xs) = ground (arith, length-drop_first rd xs)

find_set-remove_from :
    (t : ℕ) (rd : Str) (u : ℕ) (ss : List RrSet)
    → find_set u ss ≡ none
    → find_set u (remove_from t rd ss).0 ≡ none
unfolding find_set remove_from shrink
find_set-remove_from t rd u [] e = refl
find_set-remove_from t rd u (s ∷ ss) e = ground (arith, find_set-remove_from t rd u ss)

member_of_no_set :
    (t : ℕ) (rd : Str) (ss : List RrSet) → find_set t ss ≡ none → member t rd ss ≡ false
unfolding find_set member
member_of_no_set t rd [] e = refl
member_of_no_set t rd (s ∷ ss) e = ground (arith, member_of_no_set t rd ss)

nil_of_length : (x : Str) (xs : List Str) → length xs ≡ 0 → contains x xs ≡ false
nil_of_length x [] h = refl
nil_of_length x (y ∷ xs) h = absurd (omega arith)

shrink-WellFormed :
    (rd : Str) (s : RrSet) (ss : List RrSet) → WellFormed (s ∷ ss) → WellFormed (shrink rd s ss)
unfolding shrink
shrink-WellFormed rd s ss h = ground (arith, NoDup-drop_first rd s.rdata h.1)

pub remove_from-WellFormed :
    (t : ℕ) (rd : Str) (ss : List RrSet) → WellFormed ss → WellFormed (remove_from t rd ss).0
unfolding remove_from
remove_from-WellFormed t rd [] h = tt
remove_from-WellFormed t rd (s ∷ ss) h = ground (
  arith,
  shrink-WellFormed rd s ss h,
  remove_from-WellFormed t rd ss h.3,
  find_set-remove_from t rd s.rrtype ss h.0,
)

member-shrink :
    (rd : Str) (u : ℕ) (x : Str) (s : RrSet) (ss : List RrSet)
    → WellFormed (s ∷ ss)
    → member u x (shrink rd s ss) ≡ member u x (s ∷ ss) && not (s.rrtype == u && rd == x)
unfolding member shrink
member-shrink rd u x s ss h = ground (
  arith,
  contains-drop_first rd x s.rdata h.1,
  member_of_no_set u x ss,
  nil_of_length x (drop_first rd s.rdata),
  h.0,
)

-- Removing a record from a well-formed node removes that record, and nothing else.
pub member-remove_from :
    (t : ℕ) (rd : Str) (u : ℕ) (x : Str) (ss : List RrSet)
    → WellFormed ss
    → member u x (remove_from t rd ss).0 ≡ member u x ss && not (t == u && rd == x)
unfolding remove_from member
member-remove_from t rd u x [] h = refl
member-remove_from t rd u x (s ∷ ss) h = ground (
  arith,
  member-shrink rd u x s ss h,
  member-remove_from t rd u x ss h.3,
  member_of_no_set u x ss,
  h.0,
  str_eq.beq_iff rd x,
)

-- The answer says whether the record was there, and the count falls by one exactly then.
pub removed-remove_from :
    (t : ℕ) (rd : Str) (ss : List RrSet) → (remove_from t rd ss).1 ≡ member t rd ss
unfolding remove_from member
removed-remove_from t rd [] = refl
removed-remove_from t rd (s ∷ ss) = ground (arith, removed-remove_from t rd ss)

pub count-remove_from :
    (t : ℕ) (rd : Str) (ss : List RrSet)
    → sum_by set_size (remove_from t rd ss).0 + (if member t rd ss then 1 else 0)
      ≡ sum_by set_size ss
unfolding remove_from member shrink
count-remove_from t rd [] = omega arith
count-remove_from t rd (s ∷ ss) =
    ground (arith, length-drop_first rd s.rdata, count-remove_from t rd ss)

contains-lt-length : (x : Str) (xs : List Str) → contains x xs ≡ true → 0 < length xs
contains-lt-length x [] h = cc
contains-lt-length x (y ∷ xs) h = omega arith

-- A node that holds a record has a positive count.
pub member-lt-count :
    (t : ℕ) (rd : Str) (ss : List RrSet) → member t rd ss ≡ true → 0 < sum_by set_size ss
unfolding member
member-lt-count t rd [] h = cc
member-lt-count t rd (s ∷ ss) h =
    ground (arith, contains-lt-length rd s.rdata, member-lt-count t rd ss)
