-- ===== src/Genetic/Examples.antt =====
-- The world of src/genetic/genetic.c for two system calls, with two organisms for each species.
use nextgen.Base.{ℕ, suc, ◌≡◌, refl, none, some, [], ◌∷◌, done}
use nextgen.Memory.Alloc.{MemoryAllocator}
use nextgen.Genetic.{WorldPopulation, init_organisms, init_species, init_world}

abbrev counter : MemoryAllocator ℕ
counter = record {
  alloc = λ n w. (some w, suc w);
  shared = λ n w. (some w, suc w);
  free = λ p w. (none, w);
  free_shared = λ p n w. (none, w);
}

abbrev two_calls : WorldPopulation
two_calls = record {
  total_species = 2;
  current_generation = 0;
  species =
      some (record { species_population = 0; organism_list = (15, 16) ∷ (13, 14) ∷ [] })
      ∷ none
      ∷ [];
}

two_calls_made : init_world counter 2 (some 2) 10 ≡ done (some two_calls, 17)
unfolding init_world init_species init_organisms
two_calls_made = refl
