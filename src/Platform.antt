-- ===== src/Platform.antt =====
-- What the program takes from code outside the repository: glaze's JSON reader, and the standard
-- library's choices that C++ leaves open.
use forgeant.Prelude.{String, Bool, List}
use forgeant.Double.{Double}
use forgeant.Outcome.{Exception, runtime_error, invalid_argument, out_of_range}
use forgeant.Outcome.{bad_variant_access, missing_key}

-- `glz::generic`: every number is a `double`, an object is a map by key.
mutual
  pub data Generic : Type 0 where
    null : Generic
    boolean : Bool → Generic
    number : Double → Generic
    string : String → Generic
    array : GenericItems → Generic
    object : GenericMembers → Generic

  pub data GenericItems : Type 0 where
    nil : GenericItems
    cons : Generic → GenericItems → GenericItems

  pub data GenericMembers : Type 0 where
    end : GenericMembers
    member : String → Generic → GenericMembers → GenericMembers

-- The result of `glz::read_json`: a value, or the error as `glz::format_error` prints it.
pub data ReadResult : Type 0 where
  value : Generic → ReadResult
  error : String → ReadResult

pub record Platform : Type 0 where
  -- `glz::read_json<glz::generic>`
  pub read_json : String → ReadResult
  -- `std::to_chars` of a double in the general format
  pub double_chars : Double → String
  -- the order in which a `std::unordered_map` iterates, from its keys in the order of insertion
  pub bucket_order : List String → List String
  -- `what()` of the exceptions whose text the standard library chooses
  pub bad_variant_what : String
  pub missing_key_what : String

-- `std::exception::what`
abbrev pub what : Platform → Exception → String
what p (runtime_error s) = s
what p (invalid_argument s) = s
what p (out_of_range s) = s
what p bad_variant_access = p.bad_variant_what
what p missing_key = p.missing_key_what
