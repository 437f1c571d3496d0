-- ===== src/Examples/Settings.antt =====
-- Setting the high water mark for sending to 10.
use serverlink.Prelude.{refl, ◌∷◌, [], Bytes}
use serverlink.Options.{
  Options, new_options, int_option, sndhwm, setsockopt, set_int_option, set_int, is_allowed, int_of,
  word, to_int,
}
use serverlink.Options.Settings.{Sets, setsockopt_lem}
use serverlink.Prelude.Int.{pos}

abbrev ten : Bytes
ten = 10 ∷ 0 ∷ 0 ∷ 0 ∷ []

abbrev changed : Options
changed = set_int sndhwm (pos 10) new_options

setsockopt_lem_example : Sets (int_option sndhwm) ten new_options changed
unfolding setsockopt set_int_option is_allowed int_of word to_int
setsockopt_lem_example = setsockopt_lem (int_option sndhwm) ten new_options changed refl
