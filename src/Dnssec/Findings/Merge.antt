-- ===== src/Dnssec/Findings/Merge.antt =====
-- MergeReplace, key by key, and the numbers that it returns.
use dnssec_auditor.Common.{
  ℕ, suc, ◌+◌, Str, str_eq, Option, none, some, is_some, List, [], ◌∷◌, ◌≡◌, refl, sym, arith, ◌∙◌,
  ap, true, false, contains, if◌then◌else◌, All,
}
use native.Mathlib.Nat.{zero-add}
use dnssec_auditor.Common.Map.{Map, get, Distinct}
use dnssec_auditor.Dnssec.Findings.{
  Time, Finding, Set, key, add, refresh, find, is_kept, merge_prev, merge_next, stamp,
  merge_replace, count_new, has_errors, has_error, is_zero,
}
use dnssec_auditor.Dnssec.Findings.Sets.{IsKeyed, find-add}

-- What one entry of `prev` leaves at its key in the first loop.
pub kept_at : Time → List Str → Option Finding → Option Finding → Option Finding
kept_at now owners none next = next
kept_at now owners (some f) next = if is_kept owners f then some (refresh now next f) else next

module _ (now : Time) (owners : List Str) where
  get-merge_prev :
      (m : Map Str Finding) (next : Set) (closed : ℕ) (k : Str)
      → All (λ e. e.0 ≡ key e.1) m
      → Distinct m
      → find k (merge_prev now owners m next closed).0 ≡ kept_at now owners (get k m) (find k next)
  unfolding merge_prev kept_at get
  get-merge_prev [] next closed k own dis = refl
  get-merge_prev ((j, f) ∷ m) next closed k own dis = ground (
    arith,
    str_eq.beq_iff j k,
    str_eq.beq_iff (key f) k,
    find-add now f next k,
    get-merge_prev m (if is_kept owners f then add now f next else next)
        (if is_kept owners f
          then closed
          else (if is_some (get j next.by_key) then closed else suc closed))
        k own.1 dis.1,
  )

get-merge_next :
    (prev m : Map Str Finding) (k : Str)
    → get k (merge_next prev m)
      ≡ (elim (get k m) [ none ↦ none | some f ↦ some (stamp (get k prev) f) ])
unfolding merge_next get
get-merge_next prev [] k = refl
get-merge_next prev ((j, f) ∷ m) k = ground (arith, str_eq.beq_iff j k, get-merge_next prev m k)

-- The merge as a function of what the two sets hold at one key.
abbrev pub merged : Time → List Str → Option Finding → Option Finding → Option Finding
merged now owners none new = new
merged now owners (some old) none = if is_kept owners old then some old else none
merged now owners (some old) (some f) =
    if is_kept owners old
    then some (refresh now (some old) old)
    else some (record f { first_seen = old.first_seen })

-- After a merge into a previous set that is keyed, a key that `prev` lacks holds what `next` holds; a
-- finding of `prev` whose owner is untouched is kept, its `last_seen` set to now if that was zero and
-- `next` has the key; any other finding of `prev` is dropped if `next` lacks it, and otherwise
-- replaced by that of `next` with the old `first_seen`.
pub find-merge_replace :
    (now : Time) (prev next : Set) (owners : List Str) (k : Str)
    → IsKeyed prev.by_key
    → find k (merge_replace now (some prev) (some next) owners).0
      ≡ merged now owners (find k prev) (find k next)
unfolding merge_replace find kept_at refresh
find-merge_replace now prev next owners k h = ground (
  arith,
  get-merge_next prev.by_key (merge_prev now owners prev.by_key next 0).0.by_key k,
  get-merge_prev now owners prev.by_key next 0 k h.own h.distinct,
)

module _ (now : Time) (owners : List Str) where
  closed-merge_prev :
      (m : Map Str Finding) (next : Set) (closed : ℕ)
      → All (λ e. e.0 ≡ key e.1) m
      → Distinct m
      → (merge_prev now owners m next closed).1
        ≡ closed + count_new (merge_prev now owners m next closed).0.by_key m
  unfolding merge_prev count_new find kept_at
  closed-merge_prev [] next closed own dis = omega arith
  closed-merge_prev ((j, f) ∷ m) next closed own dis =
      let next' : Set = if is_kept owners f then add now f next else next in
      let closed' : ℕ =
        if is_kept owners f
        then closed
        else (if is_some (get j next.by_key) then closed else suc closed) in
      ground (
        arith,
        find-add now f next j,
        str_eq.beq_iff (key f) j,
        get-merge_prev now owners m next' closed' j own.1 dis.1,
        closed-merge_prev m next' closed' own.1 dis.1,
      )

count_new-get :
    (a b m : Map Str Finding)
    → ((k : Str) → is_some (get k a) ≡ is_some (get k b))
    → count_new a m ≡ count_new b m
unfolding count_new
count_new-get a b [] h = refl
count_new-get a b ((j, f) ∷ m) h = ground (arith, h j, count_new-get a b m h)

is_some-merge_next :
    (prev m : Map Str Finding) (k : Str) → is_some (get k (merge_next prev m)) ≡ is_some (get k m)
is_some-merge_next prev m k = ground (arith, get-merge_next prev m k)

count_new-merge_next :
    (prev a m : Map Str Finding) → count_new a (merge_next prev m) ≡ count_new a m
unfolding count_new merge_next
count_new-merge_next prev a [] = refl
count_new-merge_next prev a ((j, f) ∷ m) = ground (arith, count_new-merge_next prev a m)

-- The second number that a merge into a keyed set returns is that of the findings of `prev` whose
-- keys the merged set no longer has; the first is that of the keys it has and `prev` had not.
pub counts-merge_replace :
    (now : Time) (prev next : Set) (owners : List Str)
    → IsKeyed prev.by_key
    → let (s, opened, closed) = merge_replace now (some prev) (some next) owners in
      (opened ≡ count_new prev.by_key s.by_key) × (closed ≡ count_new s.by_key prev.by_key)
unfolding merge_replace
counts-merge_replace now prev next owners h =
    let (n, closed) = merge_prev now owners prev.by_key next 0 in
    (
      sym (count_new-merge_next prev.by_key prev.by_key n.by_key),
      closed-merge_prev now owners prev.by_key next 0 h.own h.distinct
          ∙ zero-add _
          ∙ sym (
              count_new-get (merge_next prev.by_key n.by_key) n.by_key prev.by_key
                (is_some-merge_next prev.by_key n.by_key)),
    )

-- The finding of a touched owner goes, and that of another owner stays.
pub merged-touched :
    (now : Time) (owners : List Str) (z : Finding)
    → contains z.owner owners ≡ true
    → merged now owners (some z) none ≡ none
unfolding is_kept
merged-touched now owners z h = ground (arith, h)

pub merged-kept :
    (now : Time) (next : Option Finding) (owners : List Str) (f : Finding)
    → is_kept owners f ≡ true
    → is_zero f.last_seen ≡ false
    → merged now owners (some f) next ≡ some f
unfolding refresh
merged-kept now none owners f h seen = rw h refl
merged-kept now (some g) owners f h seen = rw (h, seen) refl

merge_prev-none :
    (now : Time) (m : Map Str Finding) (next : Set) (closed : ℕ)
    → (merge_prev now [] m next closed).0 ≡ next
unfolding merge_prev is_kept
merge_prev-none now [] next closed = refl
merge_prev-none now ((k, f) ∷ m) next closed =
    ground (
      arith,
      merge_prev-none now m next (if is_some (get k next.by_key) then closed else suc closed),
    )

has_error-merge_next : (prev m : Map Str Finding) → has_error (merge_next prev m) ≡ has_error m
unfolding merge_next has_error stamp
has_error-merge_next prev [] = refl
has_error-merge_next prev ((k, f) ∷ m) = ground (arith, has_error-merge_next prev m)

-- A merge that restricts nothing has the errors of the new set.
pub has_errors-merge_none :
    (now : Time) (prev next : Set)
    → has_errors (merge_replace now (some prev) (some next) []).0 ≡ has_errors next
unfolding merge_replace has_errors
has_errors-merge_none now prev next =
    has_error-merge_next prev.by_key (merge_prev now [] prev.by_key next 0).0.by_key
    ∙ ap (λ (s : Set). has_error s.by_key) (merge_prev-none now prev.by_key next 0)
