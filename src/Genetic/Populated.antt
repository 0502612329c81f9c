-- ===== src/Genetic/Populated.antt =====
-- Which species of src/genetic/genetic.c are made.
use nextgen.Base.{
  ℕ, zero, suc, ◌+◌, ◌*◌, ◌%◌, ◌^◌, ◌-◌, ◌≤◌, ◌<◌, ◌≡◌, ◌≢◌, refl, subst, ◌∙◌, Option, none, some,
  [], ◌∷◌, replicate, done, length, set, get_elem?, get_elem?-set, get_elem?-none, length-set, ◌==◌,
  ltb, arith, Option-cases, Bool-cases, inl, inr,
}
use nextgen.Memory.Alloc.{MemoryAllocator}
use nextgen.Genetic.{
  SpeciesCtx, WorldPopulation, sizeof_world, sizeof_species, sizeof_organism, sizeof_chromosome,
  init_organisms, init_species, init_world,
}

get_elem?-replicate :
    (n k : ℕ) → k < n → get_elem? (replicate {A = Option SpeciesCtx} n none) k ≡ some none
get_elem?-replicate zero k h = absurd (omega arith)
get_elem?-replicate (suc n) zero h = refl
get_elem?-replicate (suc n) (suc k) h = get_elem?-replicate n k (omega arith)

-- A species with as many organisms as the population asked for, and a count of 0.
abbrev pub Populated : ℕ → Option (Option SpeciesCtx) → Type 0
Populated pop slot =
    (s : SpeciesCtx) × (slot ≡ some (some s))
    × (length s.organism_list ≡ pop)
    × (s.species_population ≡ 0)

module _ {World : Type 0} (al : MemoryAllocator World) where
  organisms-length :
      (n : ℕ) (s t : SpeciesCtx) (w : World)
      → (init_organisms al n s w).0 ≡ some t
      → (length t.organism_list ≡ length s.organism_list + n)
        × (t.species_population ≡ s.species_population)
  unfolding init_organisms
  organisms-length zero s t w e = ground arith
  organisms-length (suc n) s t w e =
      let w₁ = (al.alloc sizeof_organism w).1 in
      let w₂ = (al.alloc sizeof_chromosome w₁).1 in
      elim (Option-cases (al.alloc sizeof_organism w).0) [
        | inl o ↦ ground (arith, o)
        | inr (a, o) ↦ elim (Option-cases (al.alloc sizeof_chromosome w₁).0) [
          | inl q ↦ ground (arith, o, q)
          | inr (c, q) ↦ ground (
            arith,
            o,
            q,
            organisms-length n (record s { organism_list = (a, c) ∷ s.organism_list }) t w₂,
          )
        ]
      ]

  -- The slots from `i` up to `j` are populated, and the others are as they were.
  record Filled (pop i j : ℕ) (v u : WorldPopulation) : Type 0 where
    inside : (k : ℕ) → i ≤ k → k < j → Populated pop (get_elem? u.species k)
    outside_low : (k : ℕ) → k < i → get_elem? u.species k ≡ get_elem? v.species k
    outside_high : (k : ℕ) → j ≤ k → get_elem? u.species k ≡ get_elem? v.species k
    long : length u.species ≡ length v.species
    total : u.total_species ≡ v.total_species

  species-Filled :
      (pop rounds i : ℕ) (v u : WorldPopulation) (w x : World)
      → init_species al pop rounds i v w ≡ done (some u, x)
      → Filled pop i (i + rounds) v u
  unfolding init_species
  species-Filled pop zero i v u w x e =
      let same : v ≡ u = ground arith in
      subst (Filled pop i (i + 0) v) same (record {
        inside = λ k lo hi. absurd (omega arith);
        outside_low = λ k h. refl;
        outside_high = λ k h. refl;
        long = refl;
        total = refl;
      })
  species-Filled pop (suc rounds) i v u w x e =
      let w₁ = (al.alloc sizeof_species w).1 in
      let blank : SpeciesCtx = record { species_population = 0; organism_list = [] } in
      let w₂ = (init_organisms al pop blank w₁).1 in
      elim (Option-cases (al.alloc sizeof_species w).0) [
        | inl o ↦ ground (arith, o)
        | inr (a, o) ↦ elim (Option-cases (init_organisms al pop blank w₁).0) [
          | inl q ↦ ground (arith, o, q)
          | inr (s, q) ↦ elim (Bool-cases (ltb i (length v.species))) [
            | inr b ↦ ground (arith, o, q, b)
            | inl b ↦
                let (many, none_counted) = organisms-length pop blank s w₁ q in
                let v₁ = record v { species = set v.species i (some s) } in
                let ih = species-Filled pop rounds (i + 1) v₁ u w₂ x (ground (arith, o, q, b)) in
                record {
                  inside = λ k lo hi. elim (Bool-cases (i == k)) [
                    | inl here ↦ (
                      s,
                      ground
                          (arith, here, b, ih.outside_low k, get_elem?-set v.species i k (some s)),
                      omega (arith, many),
                      none_counted,
                    )
                    | inr later ↦ ih.inside k (ground arith) (omega arith)
                  ];
                  outside_low =
                      λ k h. ground (arith, ih.outside_low k, get_elem?-set v.species i k (some s));
                  outside_high = λ k h.
                      ground (arith, ih.outside_high k, get_elem?-set v.species i k (some s));
                  long = ih.long ∙ length-set v.species i (some s);
                  total = ih.total;
                }
          ]
        ]
      ]

  -- A world that is made has been filled from the blank index.
  world-Filled :
      (pop n : ℕ) (u : WorldPopulation) (w x : World)
      → init_world al pop (some n) w ≡ done (some u, x)
      → Filled pop 0
          (0 + (n + 2 ^ 32 - 1) % 2 ^ 32)
          (record { total_species = n; current_generation = 0; species = replicate n none })
          u
  unfolding init_world
  world-Filled pop n u w x e =
      let w₁ = (al.alloc sizeof_world w).1 in
      let w₂ = (al.alloc (n * 8) w₁).1 in
      elim (Option-cases (al.alloc sizeof_world w).0) [
        | inl o ↦ ground (arith, o)
        | inr (a, o) ↦ elim (Option-cases (al.alloc (n * 8) w₁).0) [
          | inl q ↦ ground (arith, o, q)
          | inr (b, q) ↦
              species-Filled pop ((n + 2 ^ 32 - 1) % 2 ^ 32) 0 _ u w₂ x (ground (arith, o, q))
        ]
      ]

  -- If init_world makes a world for a table of n + 1 system calls, the first n species have as many
  -- organisms as SPECIES_POP and a recorded population of 0, and the last species is not made at all:
  -- its slot is as it was allocated.
  init_world-Populated :
      (pop n k : ℕ) (u : WorldPopulation) (w x : World)
      → n < 2 ^ 32 - 1
      → k < n
      → init_world al pop (some (suc n)) w ≡ done (some u, x)
      → Populated pop (get_elem? u.species k)
        × (get_elem? u.species n ≡ some none)
        × (u.total_species ≡ suc n)
  init_world-Populated pop n k u w x small lt e =
      let f = world-Filled pop (suc n) u w x e in
      (
        f.inside k (omega arith) (omega arith),
        f.outside_high n (omega arith) ∙ get_elem?-replicate (suc n) n (omega arith),
        f.total,
      )

  -- For a table of no system calls init_world never makes a world: its bound wraps around to the
  -- largest 32-bit number.
  init_world-empty :
      (pop : ℕ) (u : WorldPopulation) (w x : World)
      → init_world al pop (some 0) w ≢ done (some u, x)
  init_world-empty pop u w x e =
      let f = world-Filled pop 0 u w x e in
      let (s, at, many, none_counted) = f.inside 0 (omega arith) (omega arith) in
      ground (arith, at, get_elem?-none u.species 0 (omega (arith, f.long)))
