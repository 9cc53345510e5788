-- ===== src/Failure/Tests.antt =====
-- Runs of the normaliser, and its theorem at a concrete error.
use opfs.Prelude.{◌≡◌, refl, none, some, codes, true}
use opfs.Failure.{
  FileSystemError, ForeignValue, absent, string, foreign, to_file_system_error, not_found,
  unavailable, unknown, invalid_path,
}
use opfs.Failure.Laws.{across_realm, to_file_system_error-across_realm}

abbrev enoent : ForeignValue
enoent = record {
  identity = 5;
  is_object = true;
  name = string "Error";
  code = string "ENOENT";
  operation = absent;
  path = absent;
  cause = none;
}

enoent_code : (to_file_system_error (foreign enoent) "read" none).code ≡ not_found
unfolding to_file_system_error
enoent_code = refl

unknown_error : ForeignValue
unknown_error = record enoent { name = string "UnknownError"; code = absent }

unknown_code :
    ((to_file_system_error (foreign unknown_error) "open" none).code ≡ unavailable)
    × ((to_file_system_error (foreign unknown_error) "read" none).code ≡ unknown)
unfolding to_file_system_error unknown_error
unknown_code = (refl, refl)

abbrev escaped : FileSystemError
escaped = record {
  code = invalid_path;
  operation = "path";
  path = some (codes "../x");
  cause = none;
}

to_file_system_error-across_realm_example :
    to_file_system_error (across_realm 9 escaped) "write" none ≡ record escaped { cause = some 9 }
to_file_system_error-across_realm_example = to_file_system_error-across_realm 9 escaped "write" none
