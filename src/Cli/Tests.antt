-- ===== src/Cli/Tests.antt =====
-- Concrete command lines.
use esp_misc.Common.{
  ℕ, ◌≡◌, refl, true, false, Bool, ◌==◌, ◌&&◌, ◌||◌, some, List, [], ◌∷◌, ◌++◌, replicate, arith,
}
use esp_misc.Common.Int.{pos}
use esp_misc.Cli.{setup_cli_parse}
use esp_misc.Cli.Parse.{parsed, setup_cli_parse_lem}
use esp_misc.Cli.Commands.{setup_cli_rboot_cmd, setup_cli_rboot_cmd_lem, rboot_switch}

-- "Show   ID  " and a newline
abbrev typed : List ℕ
typed = 83 ∷ 104 ∷ 111 ∷ 119 ∷ 32 ∷ 32 ∷ 32 ∷ 73 ∷ 68 ∷ 32 ∷ 32 ∷ 10 ∷ []

setup_cli_parse_lem_example :
    (v : List ℕ) × (setup_cli_parse 20 (pos 7) (typed ++ (0 ∷ [])) (replicate 128 9)
      ≡ some (parsed (pos 7) typed v (replicate 128 9)))
setup_cli_parse_lem_example =
    setup_cli_parse_lem typed [] (replicate 128 9) 20 (pos 7)
      (
        omega arith,
        (
          omega arith,
          (
            omega arith,
            (
              omega arith,
              (
                omega arith,
                (
                  omega arith,
                  (
                    omega arith,
                    (omega arith, (omega arith, (omega arith, (omega arith, (omega arith, tt))))),
                  ),
                ),
              ),
            ),
          ),
        ),
      )
      (omega arith) (omega arith) (omega arith)

-- "rboot switch 2"
abbrev switch_two : List ℕ
switch_two = rboot_switch ++ (32 ∷ 50 ∷ [])

abbrev starts_with : List ℕ → List ℕ → Bool
starts_with text [] = true
starts_with [] (k ∷ ks) = false
starts_with (c ∷ cs) (k ∷ ks) = (c == k) && starts_with cs ks

abbrev strstr : List ℕ → List ℕ → Bool
strstr [] key = starts_with [] key
strstr (c ∷ cs) key = starts_with (c ∷ cs) key || strstr cs key

setup_cli_rboot_cmd_lem_example : setup_cli_rboot_cmd strstr switch_two 14 ≡ 2 ∷ []
setup_cli_rboot_cmd_lem_example =
    setup_cli_rboot_cmd_lem strstr switch_two 14 refl (omega arith) (omega arith)
