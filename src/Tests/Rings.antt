-- ===== src/Tests/Rings.antt =====
-- Tests of the NSEC3 ring, with two entries.
use dnssec_auditor.Dns.{Nsec3Param}
use dnssec_auditor.Dnssec.Findings.Errors.{errors}
use dnssec_auditor.Dnssec.Denial.{verify_nsec3_chain, nsec3_recs, successors}
use dnssec_auditor.Dnssec.Denial.Chain.{IsHashed, errors-verify_nsec3_chain}
use dnssec_auditor.Common.{
  any, not, ◌==◌, nat_eq, Str, str_eq, true, ◌||◌, some, [], ◌≡◌, ◌⊎◌, refl, codes,
}
use dnssec_auditor.Common.Map
use dnssec_auditor.Zone.Entries.{Nsec3Rec}
use dnssec_auditor.Zone.Index.{str_ltb, str_leb}
use dnssec_auditor.Zone.Index.Last.{first}
use dnssec_auditor.Zone.Index.Sorted.{insert}
use dnssec_auditor.Zone.Store.{Store, new_store}
use dnssec_auditor.Zone.Store.Ring.{covering_nsec3, next_nsec3, pred_nsec3}
use dnssec_auditor.Zone.Store.Ring.Covering.{covering_nsec3-nearest}
use dnssec_auditor.Samples.{sample_libs, sample_crypto, origin}

abbrev entry : Str → Str → Nsec3Rec
entry hash next = record {
  hash = hash;
  owner = origin;
  next = next;
  iterations = 0;
  salt = [];
  flags = 0;
  type_bit_map = [];
}

abbrev ringed : Store sample_libs
ringed = record (new_store sample_libs origin) {
  nsec3 =
      sample_libs.ring.set (codes "d") (entry (codes "d") (codes "h"))
        (sample_libs.ring.set (codes "h") (entry (codes "h") (codes "d")) sample_libs.ring.empty);
}

covered_between :
    covering_nsec3 sample_libs (codes "f") ringed ≡ some (entry (codes "d") (codes "h"))
unfolding covering_nsec3 first Map.get insert str_ltb
covered_between = refl

covered_around :
    covering_nsec3 sample_libs (codes "a") ringed ≡ some (entry (codes "h") (codes "d"))
unfolding covering_nsec3 first Map.get insert str_ltb
covered_around = refl

next_after : next_nsec3 sample_libs (codes "d") ringed ≡ some (entry (codes "h") (codes "d"))
unfolding next_nsec3 first Map.get insert str_ltb
next_after = refl

next_around : next_nsec3 sample_libs (codes "h") ringed ≡ some (entry (codes "d") (codes "h"))
unfolding next_nsec3 first Map.get insert str_ltb
next_around = refl

pred_around : pred_nsec3 sample_libs (codes "d") ringed ≡ some (entry (codes "h") (codes "d"))
unfolding pred_nsec3 first Map.get insert str_ltb
pred_around = refl

entry_there : sample_libs.ring.get (codes "h") ringed.nsec3 ≡ some (entry (codes "h") (codes "d"))
unfolding Map.get insert str_ltb
entry_there = refl

covering_nsec3-nearest_example :
    (k : Str) × (rec : Nsec3Rec) × (covering_nsec3 sample_libs (codes "f") ringed ≡ some rec)
    × (sample_libs.ring.get k ringed.nsec3 ≡ some rec)
    × (((str_leb k (codes "f") ≡ true)
          × ((str_leb (codes "h") k || str_ltb (codes "f") (codes "h")) ≡ true))
        ⊎ ((str_ltb (codes "f") (codes "h") ≡ true) × (str_leb (codes "h") k ≡ true)))
covering_nsec3-nearest_example =
    covering_nsec3-nearest (codes "f") (codes "h") (entry (codes "h") (codes "d")) ringed
      entry_there

abbrev no_salt : Nsec3Param
no_salt = record { hash = 1; flags = 0; iterations = 0; salt = [] }

ring-IsHashed : IsHashed (sample_libs.ring.scan ringed.nsec3)
unfolding insert str_ltb
ring-IsHashed = (refl, (refl, tt))

errors-verify_nsec3_chain_example :
    errors (verify_nsec3_chain sample_libs sample_crypto 1 ringed no_salt)
    ≡ any
        (λ rec. not (rec.iterations == no_salt.iterations))
        (nsec3_recs sample_libs sample_crypto 1 ringed)
      || any
          (λ e. not (e.0.next == e.1.hash))
          (successors (nsec3_recs sample_libs sample_crypto 1 ringed))
errors-verify_nsec3_chain_example =
    errors-verify_nsec3_chain sample_libs sample_crypto 1 ringed no_salt ring-IsHashed
