-- ===== src/Build.antt =====
-- whyslow-cli/build.rs: which package the build script has aya build.
use whyslow.Base.{
  ◌≡◌, refl, ap, ◌∙◌, Bool, true, false, Option, none, some, List, [], ◌∷◌, ◌++◌, All,
  if◌then◌else◌,
}
use whyslow.Base.Text.{Text, codes, is_text}
use whyslow.Base.Result.{ok, err, Anyhow, context}

-- Of `cargo_metadata::Package`, what the script reads; `parent` is the directory of the manifest.
pub record Package : Type 0 where
  pub title : Text
  pub manifest_path : Text
  pub parent : Option Text

abbrev pub is_ebpf : Package → Bool
is_ebpf p = is_text p.title (codes "whyslow-ebpf")

-- `packages.into_iter().find(…)`.
unfoldable pub find_ebpf : List Package → Option Package
find_ebpf [] = none
find_ebpf (p ∷ packages) = let rest = find_ebpf packages in if is_ebpf p then some p else rest

-- What is built, by its name and its directory.
abbrev pub root_dir_of : Package → Anyhow (Text × Text)
root_dir_of p = elim p.parent [
  | none ↦ err ((codes "no parent for " ++ p.manifest_path) ∷ [])
  | some dir ↦ ok (p.title, dir)
]

abbrev pub package_of : Option Package → Anyhow (Text × Text)
package_of none = err (codes "whyslow-ebpf package not found" ∷ [])
package_of (some p) = root_dir_of p

-- `main`, up to the call of `build_ebpf`, over the answer of `cargo metadata`.
unfoldable pub built_package : Anyhow (List Package) → Anyhow (Text × Text)
built_package (err why) = context (codes "MetadataCommand::exec") (err why)
built_package (ok packages) = package_of (find_ebpf packages)

find_ebpf-first :
    (before later : List Package) (p : Package)
    → All (λ q. is_ebpf q ≡ false) before
    → is_ebpf p ≡ true
    → find_ebpf (before ++ p ∷ later) ≡ some p
unfolding find_ebpf
find_ebpf-first [] later p none_before here = rw here refl
find_ebpf-first (q ∷ before) later p none_before here =
    rw none_before.0 (find_ebpf-first before later p none_before.1 here)

-- The first package of that name is built, in the directory of its manifest, whatever follows it.
pub built_package-first :
    (before later : List Package) (p : Package) (dir : Text)
    → All (λ q. is_ebpf q ≡ false) before
    → is_ebpf p ≡ true
    → p.parent ≡ some dir
    → built_package (ok (before ++ p ∷ later)) ≡ ok (p.title, dir)
unfolding built_package
built_package-first before later p dir none_before here there =
    ap package_of (find_ebpf-first before later p none_before here)
    ∙ ap
        (λ o. elim o [
          | none ↦ err ((codes "no parent for " ++ p.manifest_path) ∷ [])
          | some d ↦ ok (p.title, d)
        ])
        there
