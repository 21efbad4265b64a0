-- ===== src/Dnscheck/Verdicts.antt =====
-- internal/dnscheck/spf.go: the status that `Checker.SPF` reports.
use sendplane.Common.{◌≤◌, ◌≡◌, ◌↔◌, ◌⊎◌, Option, none, some, arith, Bytes}
use sendplane.Store.Enums.{green}
use sendplane.Dnscheck.Address.{Ip}
use sendplane.Dnscheck.Spf.{
  Resolver, SpfResult, spf_pass, spf_fail, spf_softfail, spf_neutral, spf_eval, spf_status, spf,
}
use sendplane.Dnscheck.Budget.{spf_eval-IsWithin}
use sendplane.Dnscheck.Ends.{ReachesEnd, spf_eval-has_all}

-- The evaluation came to a verdict about senders.
abbrev pub IsVerdict : SpfResult → Type 0
IsVerdict res = (res ≡ spf_pass) ⊎ (res ≡ spf_fail) ⊎ (res ≡ spf_softfail) ⊎ (res ≡ spf_neutral)

-- With an observed address the evaluation has to pass it; without one it has to reach the end of the
-- domain's record.
abbrev pub IsGood : Resolver → Bytes → SpfResult → Option Ip → Type 0
IsGood r domain res none = IsVerdict res × ReachesEnd r domain none
IsGood r domain res (some ip) = res ≡ spf_pass

green_of_IsGood :
    (r : Resolver) (domain : Bytes) (observed : Option Ip)
    → let x = spf_eval r domain observed in
      IsGood r domain x.0 observed → spf_status x.0 x.1 observed ≡ green
unfolding spf_status
green_of_IsGood r domain none g = ground (arith, spf_eval-has_all r domain none)
green_of_IsGood r domain (some ip) g = ground arith

IsGood-of_green :
    (r : Resolver) (domain : Bytes) (observed : Option Ip)
    → let x = spf_eval r domain observed in
      spf_status x.0 x.1 observed ≡ green → (x.1.lookups ≤ 10) × IsGood r domain x.0 observed
unfolding spf_status
IsGood-of_green r domain none h =
    ground (arith, spf_eval-IsWithin r domain none, spf_eval-has_all r domain none)
IsGood-of_green r domain (some ip) h = ground (arith, spf_eval-IsWithin r domain (some ip))

-- The SPF check is green exactly if the evaluation stays in the budget of ten lookups and passes the
-- observed address; or, if none was observed, comes to a verdict, and the loop over the terms of the
-- domain's only SPF record gets to an `all`, or past the last term with a redirect to follow.
pub spf_green_iff :
    (r : Resolver) (domain : Bytes) (observed : Option Ip)
    → let x = spf_eval r domain observed in
      (spf r domain observed ≡ green) ↔ ((x.1.lookups ≤ 10) × IsGood r domain x.0 observed)
unfolding spf
spf_green_iff r domain observed =
    (IsGood-of_green r domain observed, λ h. green_of_IsGood r domain observed h.1)
