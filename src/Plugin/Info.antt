-- ===== src/Plugin/Info.antt =====
-- crates/go-plugin/src/plugin_info.rs: the descriptions of services, from compiled proto files.
-- prost decodes the bytes of a descriptor set to records with just the fields that are read.
pub mod Described
pub mod OneLine
use pixi_ai.Common.{
  ℕ, zero, suc, ◌+◌, Bool, true, false, not, ◌&&◌, ◌||◌, Option, none, some, List, [], ◌∷◌, ◌++◌,
  map, keep_if, ◌==◌, if◌then◌else◌, Text, codes, text_eq,
}
use pixi_ai.Common.Split.{split, join, trim}

pub record Location : Type 0 where
  pub path : List ℕ
  pub leading_comments : Option Text

pub record MethodDescriptor : Type 0 where
  pub name : Option Text
  pub input_type : Option Text
  pub output_type : Option Text
  pub client_streaming : Option Bool
  pub server_streaming : Option Bool

pub record ServiceDescriptor : Type 0 where
  pub name : Option Text
  pub method : List MethodDescriptor

pub record FileDescriptor : Type 0 where
  pub package_name : Option Text
  pub source_code_info : Option (List Location)
  pub service : List ServiceDescriptor

pub record MethodInfo : Type 0 where
  pub name : Text
  pub description : Text
  pub input_type : Text
  pub output_type : Text
  pub client_streaming : Bool
  pub server_streaming : Bool

pub record ServiceInfo : Type 0 where
  pub name : Text
  pub description : Text
  pub methods : List MethodInfo

abbrev pub text_or_empty : Option Text → Text
text_or_empty none = []
text_or_empty (some t) = t

abbrev pub or_false : Option Bool → Bool
or_false none = false
or_false (some b) = b

abbrev pub is_empty : Text → Bool
is_empty [] = true
is_empty (c ∷ s) = false

-- `matches!` on the four names.
unfoldable pub is_internal_service : Text → Bool
unfolding text_eq
is_internal_service name =
    text_eq name (codes "GRPCBroker")
    || text_eq name (codes "GRPCController")
    || text_eq name (codes "GRPCStdio")
    || text_eq name (codes "PluginInfo")

-- Drops a carriage return at the end of a line.
abbrev pub strip_return : Text → Text
strip_return [] = []
strip_return (c ∷ []) = if c == b'\r' then [] else c ∷ []
strip_return (c ∷ d ∷ s) = c ∷ strip_return (d ∷ s)

-- `str::lines`: an empty last part is no line.
abbrev pub lines_of : List Text → List Text
lines_of [] = []
lines_of (p ∷ []) = if is_empty p then [] else strip_return p ∷ []
lines_of (p ∷ q ∷ ps) = strip_return p ∷ lines_of (q ∷ ps)

unfoldable pub clean_comment : Text → Text
unfolding split trim join
clean_comment comment =
    join (codes " ") (keep_if (λ l. not (is_empty l)) (map trim (lines_of (split b'\n' comment))))

-- `strip_prefix('.')`.
abbrev pub clean_type_name : Text → Text
clean_type_name [] = []
clean_type_name (c ∷ s) = if c == b'.' then s else c ∷ s

abbrev pub path_eq : List ℕ → List ℕ → Bool
path_eq [] [] = true
path_eq [] (j ∷ q) = false
path_eq (i ∷ p) [] = false
path_eq (i ∷ p) (j ∷ q) = (i == j) && path_eq p q

-- A location without a comment is passed by.
unfoldable pub first_comment : List Location → List ℕ → Option Text
unfolding clean_comment
first_comment [] path = none
first_comment (l ∷ ls) path =
    let rest = first_comment ls path in
    if path_eq l.path path
    then elim (l.leading_comments) [ none ↦ rest | some comment ↦ some (clean_comment comment) ]
    else rest

abbrev pub get_leading_comment : Option (List Location) → List ℕ → Option Text
get_leading_comment none path = none
get_leading_comment (some locations) path = first_comment locations path

abbrev pub full_name : Text → Text → Text
full_name prefix service = if is_empty prefix then service else prefix ++ (codes "." ++ service)

module _ (file : FileDescriptor) where
  abbrev pub comment_at : List ℕ → Text
  comment_at path = text_or_empty (get_leading_comment file.source_code_info path)

  -- The methods of the service with index `s`, from index `m` on.
  unfoldable pub methods_from : ℕ → ℕ → List MethodDescriptor → List MethodInfo
  unfolding first_comment
  methods_from s m [] = []
  methods_from s m (d ∷ ds) =
      record {
        name = text_or_empty d.name;
        description = comment_at (6 ∷ s ∷ 2 ∷ m ∷ []);
        input_type = clean_type_name (text_or_empty d.input_type);
        output_type = clean_type_name (text_or_empty d.output_type);
        client_streaming = or_false d.client_streaming;
        server_streaming = or_false d.server_streaming;
      }
      ∷ methods_from s (suc m) ds

  -- The description of the service with index `s`.
  unfoldable pub service_info : ℕ → ServiceDescriptor → ServiceInfo
  unfolding methods_from
  service_info s d = record {
    name = full_name (text_or_empty file.package_name) (text_or_empty d.name);
    description = comment_at (6 ∷ s ∷ []);
    methods = methods_from s 0 d.method;
  }

  -- The loop over the services, from index `s` on.
  unfoldable pub extract_from :
      Bool → ℕ → List ServiceDescriptor → List ServiceInfo → List ServiceInfo
  unfolding service_info is_internal_service
  extract_from skip_internal s [] services = services
  extract_from skip_internal s (d ∷ ds) services =
      if skip_internal && is_internal_service (text_or_empty d.name)
      then extract_from skip_internal (suc s) ds services
      else extract_from skip_internal (suc s) ds (services ++ service_info s d ∷ [])

abbrev pub extract_services_filtered : Bool → FileDescriptor → List ServiceInfo → List ServiceInfo
extract_services_filtered skip_internal file services =
    extract_from file skip_internal 0 file.service services

abbrev pub extract_all : Bool → List FileDescriptor → List ServiceInfo → List ServiceInfo
extract_all skip_internal [] services = services
extract_all skip_internal (f ∷ fs) services =
    extract_all skip_internal fs (extract_services_filtered skip_internal f services)

-- `none` where the bytes do not decode.
abbrev pub add_with :
    Bool → Option (List FileDescriptor) → List ServiceInfo → Option (List ServiceInfo)
add_with skip_internal none services = none
add_with skip_internal (some files) services = some (extract_all skip_internal files services)

module _ (decode : List ℕ → Option (List FileDescriptor)) where
  abbrev pub add_descriptor_set : List ℕ → List ServiceInfo → Option (List ServiceInfo)
  add_descriptor_set bytes services = add_with false (decode bytes) services

  abbrev pub add_user_descriptor_set : List ℕ → List ServiceInfo → Option (List ServiceInfo)
  add_user_descriptor_set bytes services = add_with true (decode bytes) services

  abbrev pub from_descriptor_bytes : List ℕ → Option (List ServiceInfo)
  from_descriptor_bytes bytes = add_user_descriptor_set bytes []
