-- ===== src/Config.antt =====
-- crates/lb/src/config.rs: the sections of the configuration and their validation. How the file is
-- read and how a url is parsed are the libraries'. A `Duration` is a number of nanoseconds.
pub mod Accepted
use arkiv_community_lb.Base.Results.{Result, ok, err, ◌>>=◌}
use arkiv_community_lb.Base.{
  ℕ, zero, suc, ◌+◌, ◌-◌, ◌*◌, ◌/◌, ◌%◌, ◌^◌, String, str_eq, Bool, true, false, not, ◌&&◌, ◌||◌,
  Option, none, some, List, [], ◌∷◌, any, all, leb, ltb, ◌==◌, if◌then◌else◌,
}
use arkiv_community_lb.Denylist.{codes}

-- `Marketplace`; prices are in wei.
pub record Marketplace : Type 0 where
  pub writer_url : String
  pub wei_per_call : ℕ
  pub tunnel_server : String
  pub max_providers : ℕ
  pub remote_port_start : ℕ
  pub discovery_interval : ℕ
  pub refresh_interval : ℕ
  pub agreement_life : ℕ
  pub listing_life : ℕ
  pub counter_record_life : ℕ
  pub offer_max_lifetime : ℕ
  pub settlement_period : ℕ
  pub flush_interval : ℕ
  pub gas_warn_below : ℕ

abbrev pub second : ℕ
second = 1000000000

-- `Duration::as_secs`
abbrev pub as_secs : ℕ → ℕ
as_secs d = d / second

-- At most `n` numbers from `start` up to `top`.
unfoldable pub ports_from : (n top start : ℕ) → List ℕ
ports_from zero top start = []
ports_from (suc n) top start =
    let rest = ports_from n top (suc start) in if leb start top then start ∷ rest else []

-- `Marketplace::remote_ports`
unfoldable pub remote_ports : Marketplace → List ℕ
unfolding ports_from
remote_ports m = ports_from m.max_providers 65535 m.remote_port_start

pub record Health : Type 0 where
  pub probe_interval : ℕ
  pub probe_timeout : ℕ
  pub flip_after : ℕ
  pub ref_height_interval : ℕ
  pub chainid_check_interval : ℕ

pub record Proxy : Type 0 where
  pub attempt_timeout : ℕ
  pub request_timeout : ℕ
  pub max_request_size : ℕ
  pub max_response_size : ℕ

pub record Listed : Type 0 where
  pub id : String
  pub url : String

pub record Integrity : Type 0 where
  pub interval : ℕ
  pub confirm_after : ℕ

pub record Config : Type 0 where
  pub health : Health
  pub proxy : Proxy
  pub providers : List Listed
  pub marketplace : Option Marketplace
  pub integrity : Option Integrity

-- `ConfigError::Invalid`, by what is wrong and with which setting.
pub data Invalid : Type 0 where
  zero_setting below_probe_interval odd_lifetime long_lifetime short_life : String → Invalid
  low_flip_after bad_handle twice bad_url not_http offer_outlives late_discovery early_refresh :
      Invalid
  late_flush many_providers past_last_port late_confirmation : Invalid

abbrev pub Checked : Type 0
Checked = Result Invalid Unit

-- A check that returns early, and a loop of such checks over named settings.
abbrev pub refuse_if : Bool → Invalid → Checked
refuse_if bad e = if bad then err e else ok tt

unfoldable pub each : {A : Type 0} → (A → Checked) → List A → Checked
each check [] = ok tt
each check (x ∷ xs) = check x >>= λ _. each check xs

-- Checks one after the other, up to the first that fails.
unfoldable pub in_order : List Checked → Checked
in_order [] = ok tt
in_order (c ∷ cs) = c >>= λ _. in_order cs

abbrev pub Named : Type 0
Named = String × ℕ

abbrev pub not_zero : Named → Checked
not_zero (name, d) = refuse_if (d == 0) (zero_setting name)

abbrev pub max_lifetime : ℕ
max_lifetime = 15768000 * second

-- The checks on a lifetime that becomes whole blocks.
unfoldable pub check_lifetime : Named → Checked
check_lifetime (name, d) =
    refuse_if (not (d % second == 0) || not (as_secs d % 2 == 0)) (odd_lifetime name) >>= λ _.
    refuse_if (ltb max_lifetime d) (long_lifetime name)

unfoldable pub outlives_refresh : (refresh_interval : ℕ) → Named → Checked
outlives_refresh refresh_interval (name, life) =
    refuse_if (leb life refresh_interval) (short_life name)

-- The lifetimes that are sent to the chain, and those of the records that are refreshed.
abbrev pub lifetimes : Marketplace → List Named
lifetimes m =
    ("agreement_life", m.agreement_life)
    ∷ ("listing_life", m.listing_life)
    ∷ ("counter_record_life", m.counter_record_life)
    ∷ ("offer_max_lifetime", m.offer_max_lifetime)
    ∷ []

abbrev pub refreshed_lives : Marketplace → List Named
refreshed_lives m = ("agreement_life", m.agreement_life) ∷ ("listing_life", m.listing_life) ∷ []

module _ (parse_url : String → Option String) where
  abbrev pub has_http : Option String → Checked
  has_http none = err bad_url
  has_http (some scheme) =
      refuse_if (not (str_eq scheme "http") && not (str_eq scheme "https")) not_http

  -- `validate_http_url`, with the scheme of a url that parses.
  unfoldable pub validate_http_url : String → Checked
  validate_http_url url = has_http (parse_url url)

  -- `Marketplace::validate`
  unfoldable pub marketplace_checks : Marketplace → List Checked
  unfolding validate_http_url each check_lifetime outlives_refresh
  marketplace_checks m =
      validate_http_url m.writer_url
      ∷ each not_zero (
          ("discovery_interval", m.discovery_interval)
          ∷ ("refresh_interval", m.refresh_interval)
          ∷ ("agreement_life", m.agreement_life)
          ∷ ("listing_life", m.listing_life)
          ∷ ("counter_record_life", m.counter_record_life)
          ∷ ("offer_max_lifetime", m.offer_max_lifetime)
          ∷ ("settlement_period", m.settlement_period)
          ∷ ("flush_interval", m.flush_interval)
          ∷ [])
      ∷ each check_lifetime (lifetimes m)
      ∷ refuse_if (leb m.agreement_life m.offer_max_lifetime) offer_outlives
      ∷ refuse_if (leb m.refresh_interval m.discovery_interval) late_discovery
      ∷ each (outlives_refresh m.refresh_interval) (refreshed_lives m)
      ∷ refuse_if (ltb m.refresh_interval (2 * second)) early_refresh
      ∷ refuse_if (ltb m.agreement_life m.flush_interval) late_flush
      ∷ refuse_if (ltb 100 m.max_providers) many_providers
      ∷ refuse_if (ltb (65535 + 1) (m.remote_port_start + m.max_providers)) past_last_port
      ∷ []

  unfoldable pub validate_marketplace : Marketplace → Checked
  unfolding in_order marketplace_checks
  validate_marketplace m = in_order (marketplace_checks m)

  -- The characters of a handle.
  abbrev pub is_handle : ℕ → Bool
  is_handle c = (leb 97 c && leb c 122) || ((leb 48 c && leb c 57) || c == 45)

  abbrev pub is_empty : List ℕ → Bool
  is_empty [] = true
  is_empty (_ ∷ _) = false

  -- The loop over the providers, with the ids seen so far.
  unfoldable pub check_providers : List String → List Listed → Checked
  unfolding validate_http_url
  check_providers seen [] = ok tt
  check_providers seen (p ∷ ps) =
      refuse_if (is_empty (codes p.id) || not (all is_handle (codes p.id))) bad_handle >>= λ _.
      refuse_if (any (str_eq p.id) seen) twice >>= λ _.
      validate_http_url p.url >>= λ _. check_providers (p.id ∷ seen) ps

  -- `Integrity::validate`
  unfoldable pub validate_integrity : Integrity → Checked
  unfolding each in_order
  validate_integrity i = in_order (
      each not_zero
        (("integrity.interval", i.interval) ∷ ("integrity.confirm_after", i.confirm_after) ∷ [])
      ∷ refuse_if (leb i.interval i.confirm_after) late_confirmation
      ∷ [])

  -- The check on what is sampled at probe rounds.
  unfoldable pub sampled : (probe_interval : ℕ) → Named → Checked
  sampled probe_interval (name, interval) =
      refuse_if (not (interval == 0) && ltb interval probe_interval) (below_probe_interval name)

  abbrev pub if_present : {A : Type 0} → (A → Checked) → Option A → Checked
  if_present check none = ok tt
  if_present check (some a) = check a

  -- `Config::validate`
  unfoldable pub validate : Config → Checked
  unfolding each in_order sampled check_providers validate_marketplace validate_integrity
  validate c = in_order (
      each not_zero (
        ("health.probe_interval", c.health.probe_interval)
        ∷ ("health.probe_timeout", c.health.probe_timeout)
        ∷ ("proxy.attempt_timeout", c.proxy.attempt_timeout)
        ∷ ("proxy.request_timeout", c.proxy.request_timeout)
        ∷ [])
      ∷ each not_zero (
          ("proxy.max_request_size", c.proxy.max_request_size)
          ∷ ("proxy.max_response_size", c.proxy.max_response_size)
          ∷ [])
      ∷ each (sampled c.health.probe_interval) (
          ("ref_height_interval", c.health.ref_height_interval)
          ∷ ("chainid_check_interval", c.health.chainid_check_interval)
          ∷ [])
      ∷ refuse_if (ltb c.health.flip_after 2) low_flip_after
      ∷ check_providers [] c.providers
      ∷ if_present validate_marketplace c.marketplace
      ∷ if_present validate_integrity c.integrity
      ∷ [])
