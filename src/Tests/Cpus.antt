-- ===== src/Tests/Cpus.antt =====
-- Lists of cores.
use nff_go.Base.{◌≡◌, refl, [], ◌∷◌, codes}
use nff_go.Common.Errors.{ok, err, panic, parse_cpu_list_err, invalid_cpu_range_err}
use nff_go.Common.CpuList.{handle_cpu_list, parse_cpus}

handle_cpu_list-range : handle_cpu_list (codes "1-3,3,9,0") 8 ≡ (1 ∷ 2 ∷ 3 ∷ 0 ∷ [], ok tt)
unfolding handle_cpu_list
handle_cpu_list-range = refl

parse_cpus-errors :
    (parse_cpus (codes "1,x") ≡ (1 ∷ [], err parse_cpu_list_err))
    × (parse_cpus (codes "5-2") ≡ ([], err invalid_cpu_range_err))
unfolding parse_cpus
parse_cpus-errors = (refl, refl)

parse_cpus-endless :
    parse_cpus (codes "1,9223372036854775806-9223372036854775807") ≡ (1 ∷ [], panic)
unfolding parse_cpus
parse_cpus-endless = refl
