-- ===== src/Module/Reach/Once.antt =====
-- The capabilities and the extensions of a client's module, as `Assemble` writes them.
use mathlib.Core.List.{map, Nodup, Perm}
use mathlib.Core.List.Perm
use sirit.Base.{ℕ, ◌≡◌, List, ◌++◌, concat, ok}
use sirit.Spirv.{Platform}
use sirit.Module.{Module, new_module}
use sirit.Module.Assemble.{assemble}
use sirit.Module.Assemble.Layout.{module_header, capability_words, extension_words}
use sirit.Module.Assemble.RoundTrip.{sections, assemble_words}
use sirit.Module.Sets.{IsUnique-Nodup}
use sirit.Module.Reach.{Reach, Reach-IsValid, new_module-IsValid}

module _ ⦃p : Platform⦄ where
  -- In a module that calls of `Step` have built, `Assemble` writes one instruction for each
  -- capability and then one for each extension, however often they were added and in whatever order
  -- the sets are iterated, and then the streams.
  pub Reach-assemble_once :
      (version : ℕ) (ids : List ℕ) (m : Module)
      → Reach (new_module version) ids m
      → (capabilities : List ℕ) × (extensions : List (List ℕ)) × (assemble m
          ≡ ok (
              module_header m
              ++ (concat (map capability_words capabilities)
                  ++ (concat (map extension_words extensions) ++ sections m))))
        × Nodup capabilities
        × Perm capabilities m.capabilities
        × Nodup extensions
        × Perm extensions m.extensions
  Reach-assemble_once version ids m r =
      let v = Reach-IsValid (new_module-IsValid version) r in
      let c = p.capability_order-perm m.capabilities in
      let e = p.extension_order-perm m.extensions in
      (
        p.capability_order m.capabilities,
        p.extension_order m.extensions,
        assemble_words m,
        Perm.nodup (Perm.symm c) (IsUnique-Nodup m.capabilities v.unique.0),
        c,
        Perm.nodup (Perm.symm e) (IsUnique-Nodup m.extensions v.unique.1),
        e,
      )
