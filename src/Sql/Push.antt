-- ===== src/Sql/Push.antt =====
-- `push` and `push_wrapper` of rbatis_dynamical.rs, where they keep the pushed text.
use chimes_utils.Base.{ℕ, zero, suc, ◌+◌, ◌≡◌, refl, ap, ◌∙◌, [], ◌++◌, length, arith}
use chimes_utils.Base.Text.{Text}
use chimes_utils.Str.Replace.{replace_self}
use chimes_utils.Sql.Rbatis.{Rbatis, DriverType, unset, mysql, postgres, sqlite, mssql}
use chimes_utils.Sql.Wrapper
use chimes_utils.Sql.Wrapper.{DynamicWrapper}

module _ (rb : Rbatis) where
  -- A shift by no arguments replaces each placeholder by itself.
  shift_zero :
      (d : DriverType) (n index : ℕ) (s : Text) → Wrapper.shift_placeholders rb d 0 n index s ≡ s
  unfolding Wrapper.shift_placeholders
  shift_zero d zero index s = refl
  shift_zero d (suc n) index s =
      let same : index + 0 ≡ index = omega arith in
      rw (same, replace_self s (rb.stmt_convert d index)) (shift_zero d n (index + 1) s)

  convert_pushed_zero : (d : DriverType) (n : ℕ) (s : Text) → Wrapper.convert_pushed rb d 0 n s ≡ s
  unfolding Wrapper.convert_pushed
  convert_pushed_zero unset n s = refl
  convert_pushed_zero mysql n s = refl
  convert_pushed_zero postgres n s = shift_zero postgres n 0 s
  convert_pushed_zero mssql n s = shift_zero mssql n 0 s
  convert_pushed_zero sqlite n s = refl

  -- A wrapper that is pushed onto one without arguments brings its text and its arguments unchanged,
  -- under every driver: its placeholders keep their numbers.
  pub push_wrapper_first :
      (w arg : DynamicWrapper rb.Bson)
      → w.args ≡ []
      → Wrapper.push_wrapper rb w arg ≡ record w { sql = w.sql ++ arg.sql; args = arg.args }
  unfolding Wrapper.push_wrapper
  push_wrapper_first w arg e = λ i. record w {
    sql =
        w.sql
        ++ (ap (λ l. Wrapper.convert_pushed rb w.driver_type (length l) (length arg.args) arg.sql) e
              ∙ convert_pushed_zero w.driver_type (length arg.args) arg.sql)
            i;
    args = e i ++ arg.args;
  }
