-- ===== src/Dnssec/Findings.antt =====
-- internal/dnssec/findings.go: findings, and the keyed set of them. An instant is the number of
-- nanoseconds since a start before every other instant; 0 is Go's zero time. `time.Now()` is an
-- argument, read once for a call. A message is kept as its format and arguments.
pub mod Keys
pub mod Sets
pub mod Reported
pub mod Merge
pub mod Errors
use dnssec_auditor.Common.{
  ℕ, suc, ◌+◌, String, Str, str_eq, nat_eq, Eq, ◌==◌, Bool, true, false, not, ◌&&◌, ◌||◌, Option,
  none, some, is_some, List, [], ◌∷◌, ◌++◌, map, if◌then◌else◌, codes, contains, length, ltb, any,
}
use dnssec_auditor.Common.Map.{Map, get, put, delete}
use dnssec_auditor.Common.Decimal.{decimal, bar}
use dnssec_auditor.Dns.{DnsLib}
use text.Mathlib.Text.{◌==◌ as string_eqb}

abbrev pub Time : Type 0
Time = ℕ

abbrev pub is_zero : Time → Bool
is_zero t = t == 0

pub data Severity : Type 0 where
  error warning : Severity

abbrev pub severity_eqb : Severity → Severity → Bool
severity_eqb error error = true
severity_eqb warning warning = true
severity_eqb _ _ = false

-- An argument of a message.
pub data Arg : Type 0 where
  num : ℕ → Arg
  str : Str → Arg
  nums : List ℕ → Arg

pub record Message : Type 0 where
  pub format : String
  pub args : List Arg

abbrev pub say : String → Message
say s = record { format = s; args = [] }

pub record Finding : Type 0 where
  pub code : String
  pub severity : Severity
  pub owner : Str
  pub rrtype : ℕ
  pub rrtype_name : Str
  pub message : Message
  pub first_seen : Time
  pub last_seen : Time

-- Finding.Key
unfoldable pub key : Finding → Str
key f = codes f.code ++ bar ∷ (f.owner ++ bar ∷ decimal f.rrtype)

pub type_name : DnsLib → ℕ → Str
type_name d t = elim (d.type_to_string t) [ some s ↦ s | none ↦ codes "TYPE" ++ decimal t ]

unfoldable pub new_finding : DnsLib → Time → String → Severity → Str → ℕ → Message → Finding
unfolding type_name
new_finding d now code severity owner rrtype message = record {
  code = code;
  severity = severity;
  owner = owner;
  rrtype = rrtype;
  rrtype_name = type_name d rrtype;
  message = message;
  first_seen = now;
  last_seen = now;
}

-- Set; a nil map and an empty one are alike.
pub record Set : Type 0 where
  pub by_key : Map Str Finding

abbrev pub new_set : Set
new_set = record { by_key = [] }

pub refresh : Time → Option Finding → Finding → Finding
refresh now none f = f
refresh now (some old) f = record f {
  first_seen = old.first_seen;
  last_seen = if is_zero f.last_seen then now else f.last_seen;
}

-- Set.Add
pub add : Time → Finding → Set → Set
unfolding refresh
add now f s = record s { by_key = put (key f) (refresh now (get (key f) s.by_key) f) s.by_key }

-- Set.Add, for each of the findings.
unfoldable pub add_all : Time → List Finding → Set → Set
add_all now [] s = s
add_all now (f ∷ fs) s = add_all now fs (add now f s)

-- Set.List
unfoldable pub list : Set → List Finding
list s = map (λ e. e.1) s.by_key

has_error : Map Str Finding → Bool
has_error [] = false
has_error ((k, f) ∷ m) = if severity_eqb f.severity error then true else has_error m

-- Set.HasErrors
pub has_errors : Set → Bool
unfolding has_error
has_errors s = has_error s.by_key

count_in : Severity → Map Str Finding → ℕ
count_in sev [] = 0
count_in sev ((k, f) ∷ m) =
    let n = count_in sev m in if severity_eqb f.severity sev then suc n else n

-- Set.CountBySeverity
pub count_by_severity : Severity → Set → ℕ
unfolding count_in
count_by_severity sev s = count_in sev s.by_key

-- The loop of Set.Codes; `none` is the empty severity, which selects all.
collect_codes : Option Severity → Map Str Finding → List String → List String
collect_codes sev [] seen = []
collect_codes sev ((k, f) ∷ m) seen =
    let skip = collect_codes sev m seen in
    let take = f.code ∷ collect_codes sev m (f.code ∷ seen) in
    elim sev [
      | some w ↦
          if not (severity_eqb f.severity w)
          then skip
          else (if any (λ c. string_eqb c f.code) seen then skip else take)
      | none ↦ if any (λ c. string_eqb c f.code) seen then skip else take
    ]

-- Set.Codes
unfoldable all_codes : Option Severity → Set → List String
unfolding collect_codes
all_codes sev s = collect_codes sev s.by_key []

-- Set.Clone, Set.Get, Set.Delete and Set.Len
unfoldable pub clone : Set → Set
clone s = record { by_key = s.by_key }

unfoldable pub find : Str → Set → Option Finding
find k s = get k s.by_key

pub remove : Str → Set → Set
remove k s = record s { by_key = delete k s.by_key }

pub len : Set → ℕ
len s = length s.by_key

-- The owners whose findings a merge replaces; the empty set restricts nothing.
unfoldable pub is_kept : List Str → Finding → Bool
is_kept owners f = ltb 0 (length owners) && not (contains f.owner owners)

-- The first loop of MergeReplace, over the entries of `prev`.
pub merge_prev : Time → List Str → Map Str Finding → Set → ℕ → Set × ℕ
unfolding is_kept
merge_prev now owners [] next closed = (next, closed)
merge_prev now owners ((k, f) ∷ rest) next closed =
    let kept = is_kept owners f in
    merge_prev now owners rest (if kept then add now f next else next)
      (if kept then closed else (if is_some (get k next.by_key) then closed else suc closed))

pub stamp : Option Finding → Finding → Finding
stamp none f = f
stamp (some old) f = record f { first_seen = old.first_seen }

-- The second loop, over the entries of `next`.
merge_next : Map Str Finding → Map Str Finding → Map Str Finding
unfolding stamp
merge_next prev [] = []
merge_next prev ((k, f) ∷ m) = (k, stamp (get k prev) f) ∷ merge_next prev m

pub count_new : Map Str Finding → Map Str Finding → ℕ
count_new prev [] = 0
count_new prev ((k, f) ∷ m) = let n = count_new prev m in if is_some (get k prev) then n else suc n

or_new : Option Set → Set
or_new none = new_set
or_new (some s) = s

-- MergeReplace: what `*prev` becomes, with the numbers of opened and of closed findings.
pub merge_replace : Time → Option Set → Option Set → List Str → Set × ℕ × ℕ
unfolding merge_prev merge_next count_new or_new
merge_replace now prev next owners =
    let p = or_new prev in
    let (n, closed) = merge_prev now owners p.by_key (or_new next) 0 in
    (record { by_key = merge_next p.by_key n.by_key }, count_new p.by_key n.by_key, closed)
