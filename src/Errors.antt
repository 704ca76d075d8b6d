-- ===== src/Errors.antt =====
-- The crate's error type of src/errors.rs, and how an error is printed. The log file of
-- `write_to_file` is left out.
use chimes_utils.Base.{suc, Option, none, some, ◌++◌}
use chimes_utils.Base.Text.{Text, codes}
use chimes_utils.Base.Int.{ℤ, pos, negsuc}
use chimes_utils.Str.{show}

-- `Io` is `std::io::Error`.
pub data ErrorKind (Io : Type 0) : Type 0 where
  msg : Text → ErrorKind Io
  io : Io → ErrorKind Io
  custom : ℤ → Text → ErrorKind Io

-- `E` is the type of the errors that are a cause.
pub record ChimesError (Io E : Type 0) : Type 0 where
  pub kind : ErrorKind Io
  pub source : Option E

module _ {Io E : Type 0} where
  abbrev pub error_msg : Text → ChimesError Io E
  error_msg value = record { kind = msg value; source = none }

  abbrev pub error_chain : Text → E → ChimesError Io E
  error_chain value cause = record { kind = msg value; source = some cause }

  abbrev pub error_custom : ℤ → Text → ChimesError Io E
  error_custom code value = record { kind = custom code value; source = none }

  abbrev pub custom_err : ℤ → Text → E → ChimesError Io E
  custom_err code value cause = record { kind = custom code value; source = some cause }

-- An `i32` as it is printed.
unfoldable pub show_int : ℤ → Text
show_int (pos n) = show n
show_int (negsuc n) = codes "-" ++ show (suc n)

module _ {Io : Type 0} (show_io : Io → Text) where
  unfoldable pub fmt_kind : ErrorKind Io → Text
  unfolding show_int
  fmt_kind (msg message) = message
  fmt_kind (io e) = show_io e
  fmt_kind (custom code message) =
      codes "custom error code: " ++ show_int code ++ codes ", message: " ++ message

  -- `to_string` of an error.
  unfoldable pub fmt : {E : Type 0} → ChimesError Io E → Text
  unfolding fmt_kind
  fmt e = fmt_kind e.kind

-- `rbatis::Error`: the error of a text, and the text of those errors that the crate looks at.
pub record RbatisErrors : Type 1 where
  pub Error : Type 0
  pub e : Text → Error
  pub description : Error → Option Text

module _ {Io E : Type 0} (rbatis : RbatisErrors) (show_io : Io → Text) where
  unfoldable pub into_rbatis : ChimesError Io E → rbatis.Error
  unfolding fmt
  into_rbatis val = rbatis.e (fmt show_io val)

module _ {Io E : Type 0} (rbatis : RbatisErrors) where
  unfoldable pub from_rbatis : rbatis.Error → ChimesError Io E
  from_rbatis value = elim (rbatis.description value) [
    | none ↦ error_msg (codes "Unknown Error")
    | some desc ↦ error_msg desc
  ]
