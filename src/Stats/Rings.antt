-- ===== src/Stats/Rings.antt =====
-- stats.rs: what a ring holds after any closes.
use arkiv_community_lb.Base.{
  ℕ, suc, ◌+◌, ◌-◌, ◌≤◌, ◌<◌, ◌≡◌, ◌∙◌, inl, inr, Bool, false, List, [], ◌∷◌, length, arith,
  Bool-cases, ◌==◌, ◌||◌, u64_mod,
}
use arkiv_community_lb.Stats.{
  hours, Bucket, Ring, reading_or_zero, is_none, drop_oldest, push_bucket, put, close,
}

-- One close of a ring: the hour, the reading, and whether it is a stop.
pub record Closing : Type 0 where
  pub start : ℕ
  pub reading : ℕ
  pub stopping : Bool

-- The ring after the closes, oldest first.
unfoldable pub closes : List Closing → Ring → Ring
closes [] r = r
closes (c ∷ cs) r = closes cs (close c.start c.reading c.stopping r)

abbrev pub total : List Bucket → ℕ
total [] = 0
total (b ∷ bs) = b.count + total bs

-- Readings that never fall, from a first one on.
abbrev pub Rising : ℕ → List Closing → Type 0
Rising from [] = Unit
Rising from (c ∷ cs) = (from ≤ c.reading) × Rising c.reading cs

abbrev pub last_reading : ℕ → List Closing → ℕ
last_reading from [] = from
last_reading from (c ∷ cs) = last_reading c.reading cs

length-drop_oldest : (bs : List Bucket) → length (drop_oldest bs) ≡ length bs - 1
length-drop_oldest [] = omega arith
length-drop_oldest (b ∷ []) = omega arith
length-drop_oldest (b ∷ c ∷ bs) = omega (arith, length-drop_oldest (c ∷ bs))

length-push_bucket :
    (b : Bucket) (bs : List Bucket) → length bs ≤ hours → length (push_bucket b bs) ≤ hours
unfolding push_bucket
length-push_bucket b bs h = ground (arith, length-drop_oldest bs)

length-put :
    (start count : ℕ) (partial : Bool) (bs : List Bucket)
    → length bs ≤ hours
    → length (put start count partial bs) ≤ hours
unfolding put
length-put start count partial [] h =
    length-push_bucket (record { start = start; count = count; partial = partial }) [] h
length-put start count partial (b ∷ bs) h = elim (Bool-cases (b.start == start)) [
  | inl e ↦ rw e h
  | inr e ↦
      rw e
        (length-push_bucket (record { start = start; count = count; partial = partial }) (b ∷ bs) h)
]

total-put :
    (start count : ℕ) (partial : Bool) (bs : List Bucket)
    → length bs < hours
    → total bs + count < u64_mod
    → (total (put start count partial bs) ≡ total bs + count)
      × (length (put start count partial bs) ≤ suc (length bs))
unfolding put push_bucket
total-put start count partial [] h k = (omega arith, omega arith)
total-put start count partial (b ∷ bs) h k = elim (Bool-cases (b.start == start)) [
  | inl e ↦ rw e (ground arith, ground arith)
  | inr e ↦
      let room : (length (b ∷ bs) == hours) ≡ false = ground arith in
      rw (e, room) (ground arith, ground arith)
]

last_reading-le : (from : ℕ) (cs : List Closing) → Rising from cs → from ≤ last_reading from cs
last_reading-le from [] up = omega arith
last_reading-le from (c ∷ cs) up = omega (arith, up.0, last_reading-le c.reading cs up.1)

-- What a ring has counted is what the counter read last, no growth lost and none counted twice,
-- while the ring had room for a bucket at each close: the readings never fall, the last one is a
-- u64, and before them the ring held what it had read.
pub total-closes :
    (cs : List Closing) (r : Ring)
    → total r.buckets ≡ reading_or_zero r.last
    → Rising (reading_or_zero r.last) cs
    → length r.buckets + length cs ≤ hours
    → last_reading (reading_or_zero r.last) cs < u64_mod
    → total (closes cs r).buckets ≡ last_reading (reading_or_zero r.last) cs
unfolding closes close
total-closes [] r t up room fits = t
total-closes (c ∷ cs) r t up room fits =
    let before = reading_or_zero r.last in
    let top = last_reading-le c.reading cs up.1 in
    let growth : before + (c.reading - before) ≡ c.reading = omega (arith, up.0) in
    let (counted, longer) =
      total-put c.start (c.reading - before) (c.stopping || is_none r.last) r.buckets
        (omega (arith, room)) (omega (arith, t, growth, top, fits)) in
    total-closes cs (close c.start c.reading c.stopping r) (counted ∙ omega (arith, t, growth)) up.1
      (omega (arith, longer, room)) fits
