-- ===== src/Proc/Times.antt =====
-- The processor times of linux_performance.rs, and where performance.rs puts them.
use chimes_utils.Base.{ℕ, ◌^◌, ◌<◌, ◌≡◌, refl, ap, ◌∙◌, true, some, List, ◌∷◌, ◌++◌, All, arith}
use chimes_utils.Base.Maybe.{◌>>=◌}
use chimes_utils.Base.Text.{Text, codes, text_eq}
use chimes_utils.Str.{starts_with, strip_prefix, is_whitespace, lines, split_whitespace, show}
use chimes_utils.Str.Digits.{parse_u64-show}
use chimes_utils.Str.Words.{IsWord, columns, words_of, split_whitespace-columns, show-IsWord}
use chimes_utils.Counters.{CustomCounter}
use chimes_utils.Proc.{Float, f64_item, times_of, is_cpu, first_times, get_process_times}
use chimes_utils.Proc.Info.{ChimesPerformanceInfo, System, info_of, get_performance_info}

-- The columns of the processor's line: user, nice, system and idle time, and further ones.
pub record CpuLine : Type 0 where
  pub gap_1 : ℕ
  pub user : ℕ
  pub gap_2 : ℕ
  pub nice : ℕ
  pub gap_3 : ℕ
  pub system : ℕ
  pub gap_4 : ℕ
  pub idle : ℕ
  pub more : List (ℕ × Text)

abbrev pub cpu_columns : CpuLine → List (ℕ × Text)
cpu_columns c =
    (c.gap_1, show c.user)
    ∷ (c.gap_2, show c.nice)
    ∷ (c.gap_3, show c.system)
    ∷ (c.gap_4, show c.idle)
    ∷ c.more

abbrev pub show_cpu : CpuLine → Text
show_cpu c = codes "cpu" ++ columns (cpu_columns c)

pub record IsCpuLine (c : CpuLine) : Type 0 where
  pub user_fits : c.user < 2 ^ 64
  pub nice_fits : c.nice < 2 ^ 64
  pub system_fits : c.system < 2 ^ 64
  pub idle_fits : c.idle < 2 ^ 64
  pub more_words : All IsWord (words_of c.more)

cpu-IsWord : IsWord (codes "cpu")
unfolding is_whitespace
cpu-IsWord = (omega arith, (refl, (refl, (refl, tt))))

module _ (c : CpuLine) (i : IsCpuLine c) where
  cpu-items : split_whitespace (show_cpu c) ≡ codes "cpu" ∷ words_of (cpu_columns c)
  cpu-items = split_whitespace-columns (codes "cpu") (cpu_columns c) cpu-IsWord (
    show-IsWord c.user,
    (show-IsWord c.nice, (show-IsWord c.system, (show-IsWord c.idle, i.more_words))),
  )

  starts_with-cpu : starts_with (show_cpu c) (codes "cpu ") ≡ true
  unfolding starts_with strip_prefix
  starts_with-cpu = refl

  module _ (float : Float) where
    abbrev pub cpu_times : float.F64 × (float.F64 × float.F64)
    cpu_times = (
      float.add (float.of_u64 c.user) (float.of_u64 c.nice),
      (float.of_u64 c.system, float.of_u64 c.idle),
    )

    first_times-cpu : (rest : List Text) → first_times float (show_cpu c ∷ rest) ≡ some cpu_times
    unfolding first_times is_cpu times_of f64_item text_eq
    first_times-cpu rest =
        rw
          (
            first_times,
            starts_with-cpu,
            cpu-items,
            parse_u64-show c.user i.user_fits,
            parse_u64-show c.nice i.nice_fits,
            parse_u64-show c.system i.system_fits,
            parse_u64-show c.idle i.idle_fits,
          )
          refl

-- Let the first line of the file be the processor's, as the kernel writes it: the word cpu, and the
-- user, nice, system and idle times within 64 bits, with any number of spaces between them. Then
-- the performance information succeeds, and says as the usage by the kernel the user time and the
-- nice time together, as the usage by the user the system time, and as the idle usage the idle time.
pub get_performance_info-cpu :
    (float : Float) (substring : Text → ℕ → ℕ → Text) (c : CpuLine) (s : System)
    (counters : CustomCounter) (text : Text) (rest : List Text)
    → IsCpuLine c
    → s.stat ≡ some text
    → lines text ≡ show_cpu c ∷ rest
    → (info : ChimesPerformanceInfo float) × (get_performance_info float substring s counters
        ≡ some info)
      × (info.kernel_cpu_usages ≡ float.add (float.of_u64 c.user) (float.of_u64 c.nice))
      × (info.user_cpu_usages ≡ float.of_u64 c.system)
      × (info.idle_cpu_usages ≡ float.of_u64 c.idle)
unfolding get_performance_info get_process_times info_of
get_performance_info-cpu float substring c s counters text rest i h e =
    let t : get_process_times float s.stat ≡ some (cpu_times c i float) =
      ap (get_process_times float) h ∙ ap (first_times float) e ∙ first_times-cpu c i float rest in
    (
      info_of float substring s counters (cpu_times c i float),
      ap (λ o. o >>= (λ times. some (info_of float substring s counters times))) t,
      refl,
      refl,
      refl,
    )
