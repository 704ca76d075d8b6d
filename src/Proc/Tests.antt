-- ===== src/Proc/Tests.antt =====
-- The theorems on linux_performance.rs and performance.rs at concrete files.
use chimes_utils.Base.{ℕ, ◌≡◌, refl, inl, inr, none, some, List, [], ◌∷◌, ◌++◌, wrap64, All, arith}
use chimes_utils.Base.Text.{Text, codes}
use chimes_utils.Str.{
  is_whitespace, onto_first, split, split_white, non_empty, split_whitespace, lines_of, chomp,
  lines, show_from, show,
}
use chimes_utils.Str.Words.{IsWord, words_of}
use chimes_utils.Str.Number.{parse_digits, parse_unsigned, in_range_u64, parse_u64}
use chimes_utils.Counters
use chimes_utils.Proc.{Float, u64_item, get_network_io_counter}
use chimes_utils.Proc.Network.{
  Interface, IsInterface, IsHeading, received_total, sent_total, get_network_io_counter-totals,
}
use chimes_utils.Proc.Info.{ChimesPerformanceInfo, System, get_performance_info}
use chimes_utils.Proc.Times.{CpuLine, get_performance_info-cpu}

abbrev zeros : List (ℕ × Text)
zeros =
    (1, codes "0")
    ∷ (1, codes "0")
    ∷ (1, codes "0")
    ∷ (1, codes "0")
    ∷ (1, codes "0")
    ∷ (1, codes "0")
    ∷ (1, codes "0")
    ∷ []

abbrev lo : Interface
lo = record {
  margin = 4;
  name = codes "lo:";
  received_gap = 2;
  received = 700;
  inner = zeros;
  sent_gap = 0;
  sent = 70;
  outer = (0, codes "0") ∷ [];
}

abbrev eth : Interface
eth = record lo { name = codes "eth0:"; received = 5; sent = 18446744073709551615 }

zero-IsWord : IsWord (codes "0")
unfolding is_whitespace
zero-IsWord = (omega arith, (refl, tt))

zeros_words : All IsWord (words_of zeros)
zeros_words = let z = zero-IsWord in (z, (z, (z, (z, (z, (z, (z, tt)))))))

lo-IsInterface : IsInterface lo
unfolding is_whitespace
lo-IsInterface = record {
  name_word = (omega arith, (refl, (refl, (refl, tt))));
  received_fits = omega arith;
  inner_seven = refl;
  inner_words = zeros_words;
  sent_fits = omega arith;
  outer_some = omega arith;
  outer_words = (zero-IsWord, tt);
}

eth-IsInterface : IsInterface eth
unfolding is_whitespace
eth-IsInterface = record {
  name_word = (omega arith, (refl, (refl, (refl, (refl, (refl, tt))))));
  received_fits = omega arith;
  inner_seven = refl;
  inner_words = zeros_words;
  sent_fits = omega arith;
  outer_some = omega arith;
  outer_words = (zero-IsWord, tt);
}

-- The two headings of the file, the second with more than ten words.
abbrev short_heading : Text
short_heading = codes "Inter-|   Receive | Transmit"

abbrev long_heading : Text
long_heading = codes " face |bytes packets errs drop fifo frame|bytes packets errs drop fifo colls"

short-IsHeading : IsHeading short_heading
unfolding split_whitespace split_white non_empty onto_first is_whitespace
short-IsHeading = inl (omega arith)

long-IsHeading : IsHeading long_heading
unfolding split_whitespace split_white non_empty onto_first is_whitespace u64_item parse_u64
    parse_unsigned parse_digits in_range_u64
long-IsHeading = inr refl

abbrev net_dev : Text
net_dev =
    short_heading
    ++ codes "\n"
    ++ long_heading
    ++ codes "\n"
    ++ codes "    lo:   700 "
    ++ codes " 0  0  0  0  0  0  0 70 0\n"
    ++ codes "    eth0:   5 "
    ++ codes " 0  0  0  0  0  0  0 18446744073709551615 0\n"

-- The bytes sent wrap around.
get_network_io_counter-totals_example :
    get_network_io_counter (some net_dev)
    ≡ (wrap64 (received_total (lo ∷ eth ∷ [])), wrap64 (sent_total (lo ∷ eth ∷ [])))
get_network_io_counter-totals_example =
    get_network_io_counter-totals net_dev (short_heading ∷ long_heading ∷ []) (lo ∷ eth ∷ [])
      (short-IsHeading, (long-IsHeading, tt)) (lo-IsInterface, (eth-IsInterface, tt))
      (unfold lines split onto_first lines_of chomp show show_from in refl)

sent_wraps : wrap64 (sent_total (lo ∷ eth ∷ [])) ≡ 69
sent_wraps = refl

-- Floating point numbers as terms.
data Term : Type 0 where
  number : ℕ → Term
  sum : Term → Term → Term

abbrev float : Float
float = record { F64 = Term; of_u64 = number; add = sum }

abbrev cpu : CpuLine
cpu = record {
  gap_1 = 1;
  user = 40;
  gap_2 = 0;
  nice = 2;
  gap_3 = 0;
  system = 9;
  gap_4 = 0;
  idle = 100;
  more = [];
}

abbrev cpu_text : Text
cpu_text = codes "cpu  40 2 9 100\n"

abbrev system : System
system = record {
  fdinfo = none;
  stat_of_process = none;
  stat = some cpu_text;
  sysinfo = none;
  io = none;
  cpuinfo = none;
  net_dev = none;
  now = 5;
}

get_performance_info-cpu_example :
    (info : ChimesPerformanceInfo float) × (get_performance_info float
        (λ s a b. s)
        system
        Counters.default
      ≡ some info)
    × (info.kernel_cpu_usages ≡ sum (number 40) (number 2))
    × (info.user_cpu_usages ≡ number 9)
    × (info.idle_cpu_usages ≡ number 100)
get_performance_info-cpu_example =
    get_performance_info-cpu float (λ s a b. s) cpu system Counters.default cpu_text []
      (record {
        user_fits = omega arith;
        nice_fits = omega arith;
        system_fits = omega arith;
        idle_fits = omega arith;
        more_words = tt;
      })
      refl (unfold lines split onto_first lines_of chomp show show_from in refl)
