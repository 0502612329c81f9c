-- ===== src/Genetic.antt =====
-- The world of src/genetic/genetic.c: its species and their first organisms. Fitness is left out: the
-- code sets it to 0 and never reads it.
pub mod Populated
mod Examples
use nextgen.Base.{
  ℕ, zero, suc, ◌+◌, ◌*◌, ◌%◌, ◌^◌, ◌-◌, Option, none, some, List, [], ◌∷◌, replicate, Outcome,
  done, fault, length, set, ltb, if◌then◌else◌,
}
use nextgen.Memory.Alloc.{MemoryAllocator}

abbrev pub species_pop : ℕ
species_pop = 1000

-- `struct species_ctx`. The organisms are known by their addresses and those of their chromosomes.
pub record SpeciesCtx : Type 0 where
  pub species_population : ℕ
  pub organism_list : List (ℕ × ℕ)

-- `struct world_population`. A slot of the index is `none` before it is written.
pub record WorldPopulation : Type 0 where
  pub total_species : ℕ
  pub current_generation : ℕ
  pub species : List (Option SpeciesCtx)

-- The sizes of the structures.
abbrev pub sizeof_world : ℕ
sizeof_world = 32

abbrev pub sizeof_species : ℕ
sizeof_species = 24

abbrev pub sizeof_organism : ℕ
sizeof_organism = 24

abbrev pub sizeof_chromosome : ℕ
sizeof_chromosome = 8

module _ {World : Type 0} (allocator : MemoryAllocator World) where
  -- The loop over the organisms of a species; `none` is the return code -1.
  unfoldable pub init_organisms : ℕ → SpeciesCtx → World → Option SpeciesCtx × World
  init_organisms zero specie w = (some specie, w)
  init_organisms (suc n) specie w =
      let (organism, w₁) = allocator.alloc sizeof_organism w in
      elim organism [
        | none ↦ (none, w₁)
        | some o ↦
            let (chromosome, w₂) = allocator.alloc sizeof_chromosome w₁ in
            elim chromosome [
              | none ↦ (none, (allocator.free (some o) w₂).1)
              | some c ↦
                  init_organisms n (record specie { organism_list = (o, c) ∷ specie.organism_list })
                    w₂
            ]
      ]

  -- The loop over the species, `rounds` of them from number i on. A write behind the index faults.
  -- `pop` is SPECIES_POP.
  unfoldable pub init_species :
      ℕ → ℕ → ℕ → WorldPopulation → World → Outcome (Option WorldPopulation × World)
  init_species pop zero i world w = done (some world, w)
  init_species pop (suc rounds) i world w =
      let (place, w₁) = allocator.alloc sizeof_species w in
      elim place [
        | none ↦ done (none, w₁)
        | some _ ↦
            let (made, w₂) =
              init_organisms pop (record { species_population = 0; organism_list = [] }) w₁ in
            elim made [
              | none ↦ done (none, w₂)
              | some specie ↦
                  if ltb i (length world.species)
                  then init_species pop rounds (i + 1)
                      (record world { species = set world.species i (some specie) }) w₂
                  else fault
            ]
      ]

  -- `init_world`, by the number of system calls in the table, or `none` where there is no table. The
  -- loop's bound, total_species - 1, is computed in 32 bits. Where the index cannot be had, the
  -- table is freed, which the result leaves out.
  unfoldable pub init_world : ℕ → Option ℕ → World → Outcome (Option WorldPopulation × World)
  init_world pop total_syscalls w =
      let (place, w₁) = allocator.alloc sizeof_world w in
      elim place [
        | none ↦ done (none, w₁)
        | some _ ↦ elim total_syscalls [
          | none ↦ done (none, w₁)
          | some total ↦
              let (index, w₂) = allocator.alloc (total * 8) w₁ in
              elim index [
                | none ↦ done (none, w₂)
                | some _ ↦
                    init_species pop ((total + 2 ^ 32 - 1) % 2 ^ 32) 0
                      (record {
                        total_species = total;
                        current_generation = 0;
                        species = replicate total none;
                      })
                      w₂
              ]
        ]
      ]
