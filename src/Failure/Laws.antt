-- ===== src/Failure/Laws.antt =====
-- What normalisation keeps.
use opfs.Prelude.{ℕ, ◌≡◌, refl, Option, none, some, String, Text, true}
use opfs.Failure.{
  ErrorCode, FileSystemError, Property, absent, string, Thrown, foreign, code_text, parse_code,
  to_file_system_error, or_self, unavailable,
}

abbrev pub path_property : Option Text → Property Text
path_property none = absent
path_property (some p) = string p

-- The same error as another realm sees it: no instance of this realm's class, but the same fields.
abbrev pub across_realm : ℕ → FileSystemError → Thrown
across_realm identity e = foreign (record {
  identity = identity;
  is_object = true;
  name = string "FileSystemError";
  code = string (code_text e.code);
  operation = string e.operation;
  path = path_property e.path;
  cause = e.cause;
})

across :
    (i : ℕ) (c : ErrorCode) (op : String) (p : Option Text) (k : Option ℕ) (operation : String)
    (path : Option Text)
    → to_file_system_error
        (across_realm i (record { code = c; operation = op; path = p; cause = k }))
        operation
        path
      ≡ record { code = c; operation = op; path = p; cause = or_self k i }
unfolding to_file_system_error parse_code
across i unavailable op none none operation path = refl
across i _ op none none operation path = refl
across i unavailable op none (some k) operation path = refl
across i _ op none (some k) operation path = refl
across i unavailable op (some p) none operation path = refl
across i _ op (some p) none operation path = refl
across i unavailable op (some p) (some k) operation path = refl
across i _ op (some p) (some k) operation path = refl

-- A package error that crosses a realm boundary is normalised to itself: the code, the operation and
-- the path stay, whatever operation and path the catching layer would have given it. Its cause is
-- the original cause or, if there was none, the received object.
pub to_file_system_error-across_realm :
    (i : ℕ) (e : FileSystemError) (operation : String) (path : Option Text)
    → to_file_system_error (across_realm i e) operation path
      ≡ record e { cause = or_self e.cause i }
to_file_system_error-across_realm i e operation path =
    across i e.code e.operation e.path e.cause operation path
