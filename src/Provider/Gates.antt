-- ===== src/Provider/Gates.antt =====
-- pool.rs: the two gates as bits of one byte.
use arkiv_community_lb.Base.{ℕ, zero, suc, ◌<◌, ◌≡◌, refl, Bool, true, false, not, ◌&&◌, arith}
use arkiv_community_lb.Provider.Defs.{
  Provider, Gate, health, integrity, eligible, healthy, serving_wrong_data, set_eligibility,
}

-- The byte holds nothing but the two bits.
abbrev pub GatesByte : Provider → Type 0
GatesByte p = p.eligibility < 4

-- A gate as the entry reads it.
unfoldable pub is_open : Gate → Provider → Bool
unfolding healthy serving_wrong_data
is_open health p = healthy p
is_open integrity p = not (serving_wrong_data p)

abbrev pub other : Gate → Gate
other health = integrity
other integrity = health

-- A fact about a byte below four, by its four values.
four_cases {ℓ} : (P : ℕ → Type ℓ) → P 0 → P 1 → P 2 → P 3 → (b : ℕ) → b < 4 → P b
four_cases P p0 p1 p2 p3 zero h = p0
four_cases P p0 p1 p2 p3 (suc zero) h = p1
four_cases P p0 p1 p2 p3 (suc (suc zero)) h = p2
four_cases P p0 p1 p2 p3 (suc (suc (suc zero))) h = p3
four_cases P p0 p1 p2 p3 (suc (suc (suc (suc n)))) h = absurd (omega arith)

-- In rotation is both gates open.
pub eligible-eq-gates :
    (p : Provider) → GatesByte p → eligible p ≡ is_open health p && is_open integrity p
unfolding eligible is_open
eligible-eq-gates p =
    four_cases
      (λ b.
        let q = record p { eligibility = b } in
        eligible q ≡ is_open health q && is_open integrity q)
      refl refl refl refl p.eligibility

-- What one update does, gate by gate.
pub record Sets (g : Gate) (v : Bool) (p : Provider) (r : Bool × Bool × Provider) : Type 0 where
  pub kept : GatesByte r.2
  pub was : r.0 ≡ eligible p
  pub is_now : r.1 ≡ eligible r.2
  pub this : is_open g r.2 ≡ v
  pub that : is_open (other g) r.2 ≡ is_open (other g) p

abbrev SetsByte : Gate → Bool → Provider → ℕ → Type 0
SetsByte g v p b =
    Sets g v (record p { eligibility = b }) (set_eligibility g v (record p { eligibility = b }))

pub set_eligibility-Sets :
    (g : Gate) (v : Bool) (p : Provider) → GatesByte p → Sets g v p (set_eligibility g v p)
unfolding set_eligibility eligible is_open
set_eligibility-Sets health true p =
    four_cases (SetsByte health true p) (ground arith) (ground arith) (ground arith) (ground arith)
      p.eligibility
set_eligibility-Sets health false p =
    four_cases (SetsByte health false p) (ground arith) (ground arith) (ground arith) (ground arith)
      p.eligibility
set_eligibility-Sets integrity true p =
    four_cases (SetsByte integrity true p) (ground arith) (ground arith) (ground arith)
      (ground arith) p.eligibility
set_eligibility-Sets integrity false p =
    four_cases (SetsByte integrity false p) (ground arith) (ground arith) (ground arith)
      (ground arith) p.eligibility
