-- ===== src/Packages/Registry/Enabling.antt =====
-- src/plaik_core/packages.py: without a quarantine, what an enabled package needs is enabled.
use plaik.Prelude.{
  ◌≡◌, ap, subst, sym, fun_ext, ◌∙◌, String, Bool, true, false, ◌||◌, not, Option, none, some, List,
  [], ◌∷◌, arith, ◌==◌, string_eq, eq_iff, All, All-weaken, All-zip, Bool-cases, inl, inr,
  Option-cases,
}
use plaik.Prelude.Dict.{lookup, insert, delete, lookup-insert, lookup-delete}
use plaik.Prelude.Items.{sort_items, lookup-sort_items}
use plaik.Prelude.Results.{ok}
use plaik.Prelude.Sets.{each, All-each}
use plaik.Packages.Manifest.{PackageDependency, PackageManifest}
use plaik.Packages.Dependencies.{resolve_install_order}
use plaik.Packages.Dependencies.Graph.{find}
use plaik.Packages.Dependencies.Resolution.{resolve_install_order-IsInstallOrder}
use plaik.Packages.Registry.{
  enabled, disabled, is_enabled, any_installed, PackageRecord, Records, PackageRegistry, parse,
  manifests_of, create, check_enabled, required_dependents, is_empty,
}
use plaik.Packages.Registry.Lookups.{
  created_or, lookup-create, find-order, any_installed-find, required_dependents-needs, needs-All,
}
use plaik.Packages.Registry.Steps.{
  Step, keep_all, install_step, enable_step, disable_step, quarantine_step, uninstall_step, Moves,
  unmoved, moved, Operation, is_quarantine, after, after_all, after-Moves,
}
use plaik.Packages.Registry.Preservation.{moved-reads}

abbrev pub is_on : Option PackageRecord → Bool
is_on none = false
is_on (some r) = is_enabled r.status

-- Each enabled package has its required dependencies enabled.
abbrev pub EnabledMet : (String → Option PackageRecord) → Type 0
EnabledMet f =
    (k : String) (r : PackageRecord)
    → f k ≡ some r
    → is_enabled r.status ≡ true
    → All (λ d. (d.optional || is_on (f d.package_id)) ≡ true) r.manifest.dependencies

-- The records that can be read have them so.
pub record EnabledHolds (q : PackageRegistry) : Type 0 where
  pub met : (m : Records) → parse q.file ≡ ok m → EnabledMet (λ k. lookup k m)

module _ (satisfies : String → String → Bool) where
  check_enabled-met :
      (m : Records) (d : PackageDependency)
      → check_enabled satisfies m d ≡ ok tt
      → (d.optional || is_on (lookup d.package_id m)) ≡ true
  unfolding check_enabled
  check_enabled-met m d h = ground (arith, h)

  enable-EnabledMet :
      (m : Records) (k : String) (r : PackageRecord)
      → lookup k m ≡ some r
      → each (check_enabled satisfies m) r.manifest.dependencies ≡ ok tt
      → EnabledMet (λ j. lookup j m)
      → EnabledMet (λ j. lookup j (insert k (record r { status = enabled }) m))
  enable-EnabledMet m k r e c h j s f on =
      let r' = record r { status = enabled } in
      elim (Bool-cases (k == j)) [
        | inl p ↦
            let same : r.manifest ≡ s.manifest = ground (arith, f, p, lookup-insert k j r' m) in
            subst
              (λ (n : PackageManifest).
                All (λ d. (d.optional || is_on (lookup d.package_id (insert k r' m))) ≡ true)
                  n.dependencies)
              same
              (All-weaken (λ d. check_enabled satisfies m d ≡ ok tt)
                (λ d. (d.optional || is_on (lookup d.package_id (insert k r' m))) ≡ true)
                (λ d g. enabled_more d (check_enabled-met m d g)) r.manifest.dependencies
                (All-each (check_enabled satisfies m) r.manifest.dependencies c))
        | inr p ↦
            All-weaken (λ d. (d.optional || is_on (lookup d.package_id m)) ≡ true)
              (λ d. (d.optional || is_on (lookup d.package_id (insert k r' m))) ≡ true) enabled_more
              s.manifest.dependencies (h j s (ground (arith, f, p, lookup-insert k j r' m)) on)
      ]
    where
      enabled_more :
          (d : PackageDependency)
          → (d.optional || is_on (lookup d.package_id m)) ≡ true
          → (d.optional || is_on (lookup d.package_id (insert k (record r { status = enabled }) m)))
            ≡ true
      enabled_more d p =
          ground (arith, p, lookup-insert k d.package_id (record r { status = enabled }) m)

  disable-EnabledMet :
      (m : Records) (k : String) (r : PackageRecord)
      → is_empty (required_dependents k true m) ≡ true
      → EnabledMet (λ j. lookup j m)
      → EnabledMet (λ j. lookup j (insert k (record r { status = disabled }) m))
  disable-EnabledMet m k r c h j s f on =
      let r' = record r { status = disabled } in
      elim (Bool-cases (k == j)) [
        | inl p ↦ absurd (ground (arith, f, on, p, lookup-insert k j r' m))
        | inr p ↦
            let g : lookup j m ≡ some s = ground (arith, f, p, lookup-insert k j r' m) in
            All-zip (λ d. (not (d.package_id == k) || d.optional) ≡ true)
              (λ d. (d.optional || is_on (lookup d.package_id m)) ≡ true)
              (λ d. (d.optional || is_on (lookup d.package_id (insert k r' m))) ≡ true)
              (λ d o q. ground (
                arith,
                o,
                q,
                eq_iff k d.package_id,
                eq_iff d.package_id k,
                lookup-insert k d.package_id r' m,
              ))
              s.manifest.dependencies
              (needs-All k s.manifest.dependencies
                (required_dependents-needs k true m j s c g (ground (arith, on))))
              (h j s g on)
      ]

  -- The enabled packages stay the same ones.
  EnabledMet-same :
      (f g : String → Option PackageRecord)
      → ((k : String) → is_on (g k) ≡ is_on (f k))
      → ((k : String) (r : PackageRecord)
          → g k ≡ some r
          → is_enabled r.status ≡ true
          → f k ≡ some r)
      → EnabledMet f
      → EnabledMet g
  EnabledMet-same f g same old h k r e on =
      All-weaken (λ d. (d.optional || is_on (f d.package_id)) ≡ true)
        (λ d. (d.optional || is_on (g d.package_id)) ≡ true)
        (λ d p. ap (λ (b : Bool). d.optional || b) (same d.package_id) ∙ p) r.manifest.dependencies
        (h k r (old k r e on) on)

  install-EnabledMet :
      (core_version : String) (manifests order : List PackageManifest) (m : Records)
      → any_installed m manifests ≡ false
      → resolve_install_order satisfies manifests core_version (manifests_of m) ≡ ok order
      → EnabledMet (λ j. lookup j m)
      → EnabledMet (λ j. lookup j (create order m).1)
  install-EnabledMet core_version manifests order m free e =
      EnabledMet-same (λ j. lookup j m) (λ j. lookup j (create order m).1)
        (λ k. elim (Option-cases (find k manifests)) [
          | inl g ↦ ground (arith, g, there k)
          | inr (n, g) ↦ ground (arith, g, there k, any_installed-find m manifests k n free g)
        ])
        (λ k r f on. elim (Option-cases (find k manifests)) [
          | inl g ↦ ground (arith, f, g, there k)
          | inr (n, g) ↦ absurd (ground (arith, f, on, g, there k))
        ])
    where
      there :
          (k : String) → lookup k (create order m).1 ≡ created_or (find k manifests) (lookup k m)
      there k =
          let i =
            resolve_install_order-IsInstallOrder satisfies core_version manifests (manifests_of m)
              order e in
          lookup-create order m k i.unique
          ∙ ap (λ (o : Option PackageManifest). created_or o (lookup k m))
              (find-order manifests order k i)

  uninstall-EnabledMet :
      (m : Records) (k : String) (r : PackageRecord)
      → lookup k m ≡ some r
      → is_enabled r.status ≡ false
      → EnabledMet (λ j. lookup j m)
      → EnabledMet (λ j. lookup j (delete k m))
  uninstall-EnabledMet m k r e off =
      EnabledMet-same (λ j. lookup j m) (λ j. lookup j (delete k m))
        (λ j. elim (Bool-cases (k == j)) [
          | inl p ↦
              let here : lookup j m ≡ some r =
                subst (λ (x : String). lookup x m ≡ some r) ((eq_iff k j).0 p) e in
              ground (arith, p, here, off, lookup-delete k j m)
          | inr p ↦ ground (arith, p, lookup-delete k j m)
        ])
        (λ j s f on. ground (arith, f, lookup-delete k j m))

  Step-EnabledMet :
      (q : PackageRegistry) (m m' : Records)
      → Step satisfies false q m m'
      → EnabledMet (λ k. lookup k m)
      → EnabledMet (λ k. lookup k m')
  Step-EnabledMet q m m' keep_all h = h
  Step-EnabledMet q m m' (install_step manifests order n e) h =
      install-EnabledMet q.core_version manifests order m n e h
  Step-EnabledMet q m m' (enable_step k r e c) h = enable-EnabledMet m k r e c h
  Step-EnabledMet q m m' (disable_step k r e c) h = disable-EnabledMet m k r c h
  Step-EnabledMet q m m' (quarantine_step k r e p a) h = absurd (ground (arith, a))
  Step-EnabledMet q m m' (uninstall_step k r e p off d) h = uninstall-EnabledMet m k r e off h

  Moves-EnabledHolds :
      (b : Bool) (q q' : PackageRegistry)
      → b ≡ false
      → Moves satisfies b q q'
      → EnabledHolds q
      → EnabledHolds q'
  Moves-EnabledHolds b q q' calm unmoved h = h
  Moves-EnabledHolds b q q' calm (moved m m' e s) h = record {
    met = λ n f.
        let same : sort_items m' ≡ n = ground (arith, f, moved-reads satisfies b q m m' e s) in
        subst (λ (x : Records). EnabledMet (λ k. lookup k x)) same
          (subst EnabledMet (sym (fun_ext (λ k. lookup-sort_items k m'))) (
            Step-EnabledMet q m m' (subst (λ (c : Bool). Step satisfies c q m m') calm s)
              (h.met m e)));
  }

  -- Any calls but a quarantine keep this: the required dependencies of an enabled package are
  -- installed and enabled.
  pub after_all-EnabledHolds :
      (ops : List Operation) (q : PackageRegistry)
      → All (λ op. is_quarantine op ≡ false) ops
      → EnabledHolds q
      → EnabledHolds (after_all satisfies ops q)
  unfolding after_all
  after_all-EnabledHolds [] q a h = h
  after_all-EnabledHolds (op ∷ ops) q a h = after_all-EnabledHolds ops (after satisfies op q) a.1 (
      Moves-EnabledHolds (is_quarantine op) q (after satisfies op q) a.0
        (after-Moves satisfies op q) h)
