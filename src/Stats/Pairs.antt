-- ===== src/Stats/Pairs.antt =====
-- stats.rs: the two rings of a provider have the same hours, which the report pairs up.
use arkiv_community_lb.Base.{
  ℕ, suc, ◌-◌, ◌*◌, ◌≡◌, refl, ap, ◌∙◌, sym, Bool, true, false, List, [], ◌∷◌, String, str_eq,
  length, filter, All, Bool-cases, inl, inr, ◌==◌, if◌then◌else◌,
}
use arkiv_community_lb.Provider.Defs.{Provider}
use arkiv_community_lb.Pool.Defs.{Pool}
use arkiv_community_lb.Integrity.Entities.{name_le}
use arkiv_community_lb.Stats.{
  hours, hour, newest, is_recent, entries, Bucket, drop_oldest, push_bucket, put, close,
  ProviderRings, no_rings, Stats, change_rings, close_rings, close_providers, close_all, tick_all,
  stop_all,
}

-- The hours of a list of buckets.
abbrev pub starts : List Bucket → List ℕ
starts [] = []
starts (b ∷ bs) = b.start ∷ starts bs

-- What a close does to the hours, whatever it counts.
abbrev drop_last : List ℕ → List ℕ
drop_last [] = []
drop_last (x ∷ []) = []
drop_last (x ∷ y ∷ xs) = x ∷ drop_last (y ∷ xs)

abbrev push_hour : ℕ → List ℕ → List ℕ
push_hour start xs = start ∷ (if length xs == hours then drop_last xs else xs)

abbrev put_hour : ℕ → List ℕ → List ℕ
put_hour start [] = start ∷ []
put_hour start (x ∷ xs) = if x == start then x ∷ xs else push_hour start (x ∷ xs)

starts-drop_oldest : (bs : List Bucket) → starts (drop_oldest bs) ≡ drop_last (starts bs)
starts-drop_oldest [] = refl
starts-drop_oldest (b ∷ []) = refl
starts-drop_oldest (b ∷ c ∷ bs) = ap (◌∷◌ b.start) (starts-drop_oldest (c ∷ bs))

length-starts : (bs : List Bucket) → length (starts bs) ≡ length bs
length-starts [] = refl
length-starts (b ∷ bs) = ap suc (length-starts bs)

starts-push_bucket :
    (b : Bucket) (bs : List Bucket) → starts (push_bucket b bs) ≡ push_hour b.start (starts bs)
unfolding push_bucket
starts-push_bucket b bs = elim (Bool-cases (length bs == hours)) [
  | inl e ↦ rw (length-starts bs, e) (ap (◌∷◌ b.start) (starts-drop_oldest bs))
  | inr e ↦ rw (length-starts bs, e) refl
]

starts-put :
    (start count : ℕ) (partial : Bool) (bs : List Bucket)
    → starts (put start count partial bs) ≡ put_hour start (starts bs)
unfolding put push_bucket
starts-put start count partial [] = refl
starts-put start count partial (b ∷ bs) =
    let new : Bucket = record { start = start; count = count; partial = partial } in
    elim (Bool-cases (b.start == start)) [
      | inl e ↦ rw e refl
      | inr e ↦ rw e (starts-push_bucket new (b ∷ bs))
    ]

-- The two rings of a provider have buckets for the same hours.
abbrev pub Paired : ProviderRings → Type 0
Paired r = starts r.served.buckets ≡ starts r.transport_failures.buckets

abbrev pub AllPaired : List (String × ProviderRings) → Type 0
AllPaired = All (λ (e : String × ProviderRings). Paired e.1)

close_rings-Paired :
    (start : ℕ) (stopping : Bool) (p : Provider) (r : ProviderRings)
    → Paired r
    → Paired (close_rings start stopping p r)
unfolding close_rings close
close_rings-Paired start stopping p r h =
    starts-put start _ _ r.served.buckets
    ∙ ap (put_hour start) h
    ∙ sym (starts-put start _ _ r.transport_failures.buckets)

change_rings-Paired :
    (id : String) (f : ProviderRings → ProviderRings) (m : List (String × ProviderRings))
    → ((r : ProviderRings) → Paired r → Paired (f r))
    → AllPaired m
    → AllPaired (change_rings id f m)
unfolding change_rings no_rings
change_rings-Paired id f [] keeps h = (keeps no_rings refl, tt)
change_rings-Paired id f ((j, r) ∷ m) keeps h = elim (Bool-cases (str_eq j id)) [
  | inl e ↦ rw (e, change_rings) (keeps r h.0, h.1)
  | inr e ↦ elim (Bool-cases (name_le id j)) [
    | inl e' ↦ rw (e, e', change_rings) (keeps no_rings refl, h)
    | inr e' ↦ rw (e, e', change_rings) (h.0, change_rings-Paired id f m keeps h.1)
  ]
]

close_providers-Paired :
    (start : ℕ) (stopping : Bool) (ps : List Provider) (m : List (String × ProviderRings))
    → AllPaired m
    → AllPaired (close_providers start stopping ps m)
unfolding close_providers
close_providers-Paired start stopping [] m h = h
close_providers-Paired start stopping (p ∷ ps) m h = close_providers-Paired start stopping ps _ (
    change_rings-Paired p.id (close_rings start stopping p) m (close_rings-Paired start stopping p)
      h)

filter-Paired :
    (q : String × ProviderRings → Bool) (m : List (String × ProviderRings))
    → AllPaired m
    → AllPaired (filter q m)
filter-Paired q [] h = tt
filter-Paired q (x ∷ m) h = elim (Bool-cases (q x)) [
  | inl e ↦ rw e (h.0, filter-Paired q m h.1)
  | inr e ↦ rw e (filter-Paired q m h.1)
]

-- A tick and a stop leave the two rings of every provider with buckets for the same hours, as the
-- report needs them to pair the counts up, if the rings were so before.
pub tick_all-Paired :
    (start : ℕ) (pool : Pool) (s : Stats)
    → AllPaired s.providers
    → AllPaired (tick_all start pool s).providers × AllPaired (stop_all start pool s).providers
unfolding tick_all stop_all close_all
tick_all-Paired start pool s h =
    let ps = entries pool.entry pool.members in
    (
      filter-Paired (λ e. is_recent (start - hours * hour) (newest e.1.served))
          (close_providers start false ps s.providers)
          (close_providers-Paired start false ps s.providers h),
      close_providers-Paired start true ps s.providers h,
    )
