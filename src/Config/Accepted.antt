-- ===== src/Config/Accepted.antt =====
-- config.rs: what the rest of the load balancer can rely on once a configuration was accepted.
use arkiv_community_lb.Base.Results.{ok, err, ◌>>=◌}
use arkiv_community_lb.Base.{
  ℕ, zero, suc, ◌+◌, ◌*◌, ◌/◌, ◌%◌, ◌≤◌, ◌<◌, ◌≡◌, refl, String, Bool, true, false, not, ◌||◌,
  Option, List, [], ◌∷◌, length, All, ◌==◌, arith,
}
use arkiv_community_lb.Config.{
  Marketplace, second, as_secs, ports_from, remote_ports, Invalid, Checked, refuse_if, in_order,
  each, check_lifetime, outlives_refresh, validate_marketplace, marketplace_checks, lifetimes,
  refreshed_lives, odd_lifetime,
}

both_ok : (c d : Checked) → (c >>= λ _. d) ≡ ok tt → (c ≡ ok tt) × (d ≡ ok tt)
both_ok (ok tt) d h = (refl, h)
both_ok (err e) d h = cc

refuse_if-ok : (bad : Bool) (e : Invalid) → refuse_if bad e ≡ ok tt → bad ≡ false
refuse_if-ok true e h = cc
refuse_if-ok false e h = refl

-- What a loop of checks has checked.
each-ok :
    {A : Type 0} (check : A → Checked) (xs : List A)
    → each check xs ≡ ok tt
    → All (λ a. check a ≡ ok tt) xs
unfolding each
each-ok check [] h = tt
each-ok check (x ∷ xs) h =
    let (first, rest) = both_ok (check x) (each check xs) h in (first, each-ok check xs rest)

in_order-ok : (cs : List Checked) → in_order cs ≡ ok tt → All (λ c. c ≡ ok tt) cs
unfolding in_order
in_order-ok [] h = tt
in_order-ok (c ∷ cs) h =
    let (first, rest) = both_ok c (in_order cs) h in (first, in_order-ok cs rest)

length-ports_from : (n top start : ℕ) → start + n ≤ suc top → length (ports_from n top start) ≡ n
unfolding ports_from
length-ports_from zero top start h = refl
length-ports_from (suc n) top start h =
    let rest = length-ports_from n top (suc start) (omega (arith, h)) in ground (arith, rest, h)

-- A lifetime that is accepted is a whole number of blocks of two seconds.
check_lifetime-ok :
    (name : String) (d : ℕ) → check_lifetime (name, d) ≡ ok tt → d ≡ 2 * second * (as_secs d / 2)
unfolding check_lifetime
check_lifetime-ok name d h =
    let (whole, _) =
      both_ok (refuse_if (not (d % second == 0) || not (as_secs d % 2 == 0)) (odd_lifetime name)) _
        h in
    let even : (d % second ≡ 0) × (as_secs d % 2 ≡ 0) = ground (arith, refuse_if-ok _ _ whole) in
    omega (arith, even)

-- What an accepted marketplace section promises.
pub record IsUsable (m : Marketplace) : Type 0 where
  pub ports : length (remote_ports m) ≡ m.max_providers
  pub one_page : m.max_providers ≤ 100
  pub outlives_offer : as_secs m.offer_max_lifetime / 2 < as_secs m.agreement_life / 2
  pub polled : m.discovery_interval < m.refresh_interval
  pub refreshed : m.refresh_interval < m.agreement_life
  pub listed : m.refresh_interval < m.listing_life
  pub flushed : m.flush_interval ≤ m.agreement_life
  pub blocks_apart : 2 * second ≤ m.refresh_interval

-- A marketplace section that is accepted gives one tunnel port to each slot, no more slots than a
-- page of records, agreements that outlive, in whole blocks, the offers they answer and the refresh
-- interval, a listing that outlives that interval too, a poll between two refreshes, two refreshes
-- at least a block apart, and a flush within an agreement's life.
pub validate_marketplace-IsUsable :
    (parse_url : String → Option String) (m : Marketplace)
    → validate_marketplace parse_url m ≡ ok tt
    → IsUsable m
unfolding validate_marketplace marketplace_checks remote_ports outlives_refresh
validate_marketplace-IsUsable parse_url m h =
    let c = in_order-ok (marketplace_checks parse_url m) h in
    let d = (c.1).1 in
    let e = ((d.1).1).1 in
    let f = ((e.1).1).1 in
    let lives = each-ok check_lifetime (lifetimes m) d.0 in
    let agreed = check_lifetime-ok "agreement_life" m.agreement_life lives.0 in
    let offered = check_lifetime-ok "offer_max_lifetime" m.offer_max_lifetime (((lives.1).1).1).0 in
    let shorter = refuse_if-ok _ _ (d.1).0 in
    let longer = each-ok (outlives_refresh m.refresh_interval) (refreshed_lives m) e.0 in
    let longest = refuse_if-ok _ _ longer.0 in
    let listed = refuse_if-ok _ _ (longer.1).0 in
    let polled = refuse_if-ok _ _ ((d.1).1).0 in
    let apart = refuse_if-ok _ _ (e.1).0 in
    let flushed = refuse_if-ok _ _ ((e.1).1).0 in
    let page = refuse_if-ok _ _ f.0 in
    let last = refuse_if-ok _ _ (f.1).0 in
    let fits : m.remote_port_start + m.max_providers ≤ 65536 = ground arith in
    let before : m.offer_max_lifetime < m.agreement_life = ground arith in
    record {
      ports = length-ports_from m.max_providers 65535 m.remote_port_start fits;
      one_page = ground arith;
      outlives_offer = omega (arith, agreed, offered, before);
      polled = ground arith;
      refreshed = ground arith;
      listed = ground arith;
      flushed = ground arith;
      blocks_apart = ground arith;
    }
