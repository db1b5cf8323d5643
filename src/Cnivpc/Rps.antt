-- ===== src/Cnivpc/Rps.antt =====
-- cmd/cnivpc/rps.go: the CPUs that receive packets of a device, as a mask in text.
pub mod Value
use uk8s_cni_vpc.Prelude.{
  ℕ, zero, suc, ◌+◌, ◌-◌, ◌*◌, ◌/◌, ◌%◌, ◌^◌, String, Bool, true, false, ◌&&◌, ◌||◌, Option, none,
  some, List, [], ◌∷◌, ◌==◌, eqb, leb, ltb, if◌then◌else◌, codes, lower, same_codes, ◌++◌,
  replicate, map, concat,
}
use uk8s_cni_vpc.Result.{Result, ok, err, Error, failure}
use uk8s_cni_vpc.Step.{Step, pure, raise, or_else, ◌>>=◌, ◌>>◌}
use uk8s_cni_vpc.Host.{Links}

abbrev pub full_group : ℕ
full_group = 4294967295

-- The groups of `rpsCPUMask` as numbers, most significant first.
unfoldable pub rps_groups : ℕ → List ℕ
rps_groups cpu_count =
    (if eqb (cpu_count % 32) 0 then [] else (2 ^ (cpu_count % 32) - 1) ∷ [])
    ++ replicate (cpu_count / 32) full_group

-- A group as it is printed.
abbrev pub group_text : (ℕ → String) → ℕ → String
group_text hex n = if eqb n full_group then "ffffffff" else hex n

abbrev pub joined : List String → String
joined [] = ""
joined (x ∷ []) = x
joined (x ∷ y ∷ ys) = concat x (concat "," (joined (y ∷ ys)))

unfoldable pub rps_cpu_mask : (ℕ → String) → ℕ → Option String
rps_cpu_mask hex cpu_count =
    if eqb cpu_count 0 then none else some (joined (map (group_text hex) (rps_groups cpu_count)))

-- `normalizeRPSMask` after `strings.TrimSpace`, on code points: 44 is a comma, 48 a zero.
abbrev pub without_commas : List ℕ → List ℕ
without_commas [] = []
without_commas (c ∷ cs) = if eqb c 44 then without_commas cs else c ∷ without_commas cs

abbrev pub trim_zeros : List ℕ → List ℕ
trim_zeros [] = []
trim_zeros (c ∷ cs) = if eqb c 48 then trim_zeros cs else c ∷ cs

abbrev pub or_zero : List ℕ → List ℕ
or_zero [] = 48 ∷ []
or_zero (c ∷ cs) = c ∷ cs

unfoldable pub normalize_rps_mask : List ℕ → List ℕ
normalize_rps_mask mask = or_zero (trim_zeros (without_commas (lower mask)))

module _ {S : Type 0} (links : Links S) where
  abbrev pub same_mask : String → String → Bool
  same_mask current mask =
      same_codes (normalize_rps_mask (codes (links.trim_space current)))
        (normalize_rps_mask (codes (links.trim_space mask)))

  unfoldable pub write_masks : String → List String → Step S (Unit {0})
  write_masks mask [] = pure tt
  write_masks mask (file ∷ files) =
      let rest = write_masks mask files in
      or_else (links.read_file file) "cnivpc.ensureLinkRPS read" >>= λ current.
      (if same_mask current mask
        then rest
        else (or_else (links.write_file file mask) "cnivpc.ensureLinkRPS write" >>= λ _. rest))

  unfoldable pub write_queues : String → List String → Step S (Unit {0})
  write_queues mask [] = raise (failure "cnivpc.ensureLinkRPS no RX queues")
  write_queues mask (file ∷ files) = write_masks mask (file ∷ files)

  unfoldable pub ensure_link_rps : String → Step S (Unit {0})
  ensure_link_rps link_name = elim (rps_cpu_mask links.format_hex links.num_cpu) [
    | none ↦ raise (failure "cnivpc.ensureLinkRPS invalid CPU count")
    | some mask ↦
        or_else (links.glob_rps_cpus link_name) "cnivpc.ensureLinkRPS glob" >>= write_queues mask
  ]
