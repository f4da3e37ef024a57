-- ===== src/Plugin/Info/Described.antt =====
-- crates/go-plugin/src/plugin_info.rs: which services are described, and how.
use pixi_ai.Common.{
  ℕ, suc, ◌≡◌, sym, ap, ◌∙◌, Bool, true, false, not, ◌&&◌, List, [], ◌∷◌, ◌++◌, map, append_assoc,
  append-nil, keep_if, if◌then◌else◌,
}
use pixi_ai.Plugin.Info.{
  ServiceDescriptor, FileDescriptor, ServiceInfo, text_or_empty, is_internal_service, service_info,
  extract_from, extract_services_filtered, extract_all,
}

-- The services of a file under their indices.
abbrev pub indexed : ℕ → List ServiceDescriptor → List (ℕ × ServiceDescriptor)
indexed s [] = []
indexed s (d ∷ ds) = (s, d) ∷ indexed (suc s) ds

abbrev pub wanted : Bool → ℕ × ServiceDescriptor → Bool
wanted skip_internal (s, d) = not (skip_internal && is_internal_service (text_or_empty d.name))

-- The descriptions of the services that are wanted, each from its own place in the file.
abbrev pub described : Bool → FileDescriptor → List ServiceInfo
described skip_internal file =
    map (λ (s, d). service_info file s d) (keep_if (wanted skip_internal) (indexed 0 file.service))

abbrev pub described_all : Bool → List FileDescriptor → List ServiceInfo
described_all skip_internal [] = []
described_all skip_internal (f ∷ fs) = described skip_internal f ++ described_all skip_internal fs

-- One round of the loop, from what the rest does in either case.
kept_or_not :
    (f : ℕ × ServiceDescriptor → ServiceInfo) (b : Bool) (x : ℕ × ServiceDescriptor)
    (services : List ServiceInfo) (kept : List (ℕ × ServiceDescriptor)) {u v : List ServiceInfo}
    → u ≡ services ++ map f kept
    → v ≡ services ++ map f (x ∷ kept)
    → (if b then u else v) ≡ services ++ map f (elim (not b) [ true ↦ x ∷ kept | false ↦ kept ])
kept_or_not f true x services kept p q = p
kept_or_not f false x services kept p q = q

extract_from-described :
    (file : FileDescriptor) (skip_internal : Bool) (s : ℕ) (ds : List ServiceDescriptor)
    (services : List ServiceInfo)
    → extract_from file skip_internal s ds services
      ≡ services
        ++ map (λ (i, d). service_info file i d) (keep_if (wanted skip_internal) (indexed s ds))
unfolding extract_from
extract_from-described file skip_internal s [] services = sym (append-nil services)
extract_from-described file skip_internal s (d ∷ ds) services =
    kept_or_not (λ (i, e). service_info file i e)
      (skip_internal && is_internal_service (text_or_empty d.name)) (s, d) services
      (keep_if (wanted skip_internal) (indexed (suc s) ds))
      (extract_from-described file skip_internal (suc s) ds services)
      (extract_from-described file skip_internal (suc s) ds (services ++ service_info file s d ∷ [])
        ∙ append_assoc services (service_info file s d ∷ []) _)

-- Extracting files appends, in their order, the descriptions of their services that are not skipped.
pub extract_all-described :
    (skip_internal : Bool) (files : List FileDescriptor) (services : List ServiceInfo)
    → extract_all skip_internal files services ≡ services ++ described_all skip_internal files
extract_all-described skip_internal [] services = sym (append-nil services)
extract_all-described skip_internal (f ∷ fs) services =
    extract_all-described skip_internal fs (extract_services_filtered skip_internal f services)
    ∙ ap (λ x. x ++ described_all skip_internal fs)
        (extract_from-described f skip_internal 0 f.service services)
    ∙ append_assoc services (described skip_internal f) _
