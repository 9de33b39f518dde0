-- ===== src/Packages/Dependencies/Search.antt =====
-- src/plaik_core/dependencies.py, `visit`: what the depth-first search keeps and adds.
use plaik.Prelude.{
  ◌≡◌, refl, ap, subst, ◌∙◌, String, true, false, ◌||◌, none, some, List, [], ◌∷◌, ◌++◌, arith,
  ◌==◌, string_eq, eq_iff, All, All-append, All-weaken, Bool-cases, Option-cases, inl, inr,
}
use plaik.Prelude.Dict.{lookup}
use plaik.Prelude.Sets.{has, Unique, has-append, discard_self, Unique-snoc}
use plaik.Packages.Manifest.{PackageDependency, PackageManifest}
use plaik.Packages.Dependencies.Precedence.{ids, ids-snoc, DepsSeen, DepsFirst, DepsFirst-snoc}
use plaik.Packages.Dependencies.{Packages, is_member, targets, Visit, finish}

module _ (candidates : Packages) where
  -- A state of the search.
  pub record Sound (s : Visit) : Type 0 where
    pub separate : (d : String) → has d s.visiting ≡ true → has d s.visited ≡ false
    pub listed :
        (d : String)
        → is_member d candidates ≡ true
        → has d s.visited ≡ true
        → has d (ids s.ordered) ≡ true
    pub only : (d : String) → has d (ids s.ordered) ≡ true → has d s.visited ≡ true
    pub members : All (λ m. lookup m.id candidates ≡ some m) s.ordered
    pub unique : Unique (ids s.ordered)
    pub sorted : DepsFirst (λ k. is_member k candidates) [] s.ordered

  pub record Progress (s t : Visit) : Type 0 where
    pub sound : Sound t
    pub same : t.visiting ≡ s.visiting
    pub more : (d : String) → has d s.visited ≡ true → has d t.visited ≡ true

  pub enter-Sound :
      (id : String) (s : Visit)
      → has id s.visited ≡ false
      → Sound s
      → Sound (record s { visiting = id ∷ s.visiting })
  unfolding has
  enter-Sound id s new h = record {
    separate = λ d p. ground (arith, eq_iff id d, h.separate d, new);
    listed = h.listed;
    only = h.only;
    members = h.members;
    unique = h.unique;
    sorted = h.sorted;
  }

  -- The candidates are packages of the graph, each under its own id.
  module _ (all : Packages)
      (agrees : (k : String) (m : PackageManifest)
        → lookup k candidates ≡ some m
        → (lookup k all ≡ some m) × (m.id ≡ k)) where
    is_member-all : (k : String) → is_member k candidates ≡ true → is_member k all ≡ true
    is_member-all k h = elim (Option-cases (lookup k candidates)) [
      | inl e ↦ absurd (ground (arith, e, h))
      | inr (m, e) ↦ ground (arith, agrees k m e)
    ]

    targets-DepsSeen :
        (seen : List String) (ds : List PackageDependency)
        → All (λ d. has d seen ≡ true) (targets all ds)
        → All (λ d. is_member d.package_id candidates ≡ true → has d.package_id seen ≡ true) ds
    unfolding targets
    targets-DepsSeen seen [] h = tt
    targets-DepsSeen seen (d ∷ ds) h = elim (Bool-cases (is_member d.package_id all)) [
      | inl p ↦
          let g : (has d.package_id seen ≡ true) × All (λ d. has d seen ≡ true) (targets all ds) =
            rw p at h in
          (λ _. g.0, targets-DepsSeen seen ds g.1)
      | inr p ↦
          let g : All (λ d. has d seen ≡ true) (targets all ds) = rw p at h in
          (
            λ c. absurd (ground (arith, p, is_member-all d.package_id c)),
            targets-DepsSeen seen ds g,
          )
    ]

    module _ (id : String) (s t : Visit) (fresh : has id s.visiting ≡ false)
        (old : Progress (record s { visiting = id ∷ s.visiting }) t) where
      finish-same : (finish all candidates id t).visiting ≡ s.visiting
      unfolding finish
      finish-same = rw old.same (discard_self id s.visiting fresh)

      finish-separate :
          (d : String)
          → has d (finish all candidates id t).visiting ≡ true
          → has d (finish all candidates id t).visited ≡ false
      unfolding finish has
      finish-separate d p = ground (
        arith,
        ap (has d) finish-same,
        ap (has d) old.same,
        old.sound.separate d,
        eq_iff id d,
        fresh,
      )

      finish-more :
          (d : String) → has d s.visited ≡ true → has d (finish all candidates id t).visited ≡ true
      unfolding finish has
      finish-more d p = ground (arith, old.more d p)

      finish-visited :
          (d : String) → has d (finish all candidates id t).visited ≡ (id == d || has d t.visited)
      unfolding finish has
      finish-visited d = refl

      -- No candidate has the id: nothing is installed.
      finish-Sound_absent : lookup id candidates ≡ none → Sound (finish all candidates id t)
      unfolding finish
      finish-Sound_absent e =
          let same : (finish all candidates id t).ordered ≡ t.ordered = rw (e, finish) in
          record {
            separate = finish-separate;
            listed = λ d c v.
                rw same
                  (ground (arith, e, c, v, finish-visited d, eq_iff id d, old.sound.listed d));
            only = λ d o.
                ground
                  (arith, ap (λ ms. has d (ids ms)) same, o, finish-visited d, old.sound.only d);
            members = rw same old.sound.members;
            unique = rw same old.sound.unique;
            sorted = rw same old.sound.sorted;
          }

      module _ (m : PackageManifest) (e : lookup id candidates ≡ some m) (named : m.id ≡ id) where
        finish-ordered : (finish all candidates id t).ordered ≡ t.ordered ++ (m ∷ [])
        unfolding finish
        finish-ordered = rw (e, finish)

        finish-ids :
            (d : String)
            → has d (ids (finish all candidates id t).ordered) ≡ (has d (ids t.ordered) || id == d)
        unfolding has
        finish-ids d =
            ap (λ ms. has d (ids ms)) finish-ordered
            ∙ ap (has d) (ids-snoc t.ordered m)
            ∙ has-append d (ids t.ordered) (m.id ∷ [])
            ∙ ground (arith, ap (λ i. i == d) named)

        -- The candidate is installed after the dependencies, which were visited.
        finish-Sound_found :
            DepsSeen (λ k. is_member k candidates) t.visited m → Sound (finish all candidates id t)
        unfolding has
        finish-Sound_found deps =
            let free : has id t.visited ≡ false =
              ground (arith, ap (has id) old.same, eq_iff id id, old.sound.separate id) in
            let absent : has id (ids t.ordered) ≡ false = ground (arith, free, old.sound.only id) in
            record {
              separate = finish-separate;
              listed =
                  λ d c v. ground (arith, c, v, finish-visited d, finish-ids d, old.sound.listed d);
              only = λ d o. ground (arith, o, finish-visited d, finish-ids d, old.sound.only d);
              members = rw finish-ordered (
                  All-append (λ n. lookup n.id candidates ≡ some n) t.ordered (m ∷ [])
                    old.sound.members (ap (λ i. lookup i candidates) named ∙ e, tt));
              unique =
                  rw (finish-ordered, ids-snoc t.ordered m, named)
                    (Unique-snoc (ids t.ordered) id old.sound.unique absent);
              sorted = rw finish-ordered (
                  DepsFirst-snoc (λ k. is_member k candidates) [] (ids t.ordered) t.ordered m
                    (λ d p. p) old.sound.sorted
                    (All-weaken
                      (λ d.
                        is_member d.package_id candidates ≡ true
                        → has d.package_id t.visited ≡ true)
                      (λ d.
                        is_member d.package_id candidates ≡ true
                        → has d.package_id (ids t.ordered) ≡ true)
                      (λ d f c. old.sound.listed d.package_id c (f c)) m.dependencies deps));
            }

      pub finish-Progress :
          (m : PackageManifest)
          → lookup id all ≡ some m
          → All (λ d. has d t.visited ≡ true) (targets all m.dependencies)
          → Progress s (finish all candidates id t)
      finish-Progress m e deps = record {
        sound = elim (Option-cases (lookup id candidates)) [
          | inl none_there ↦ finish-Sound_absent none_there
          | inr (c, there) ↦
              let (in_all, named) = agrees id c there in
              let same : m ≡ c = ground (arith, e, in_all) in
              finish-Sound_found c there named (
                targets-DepsSeen t.visited c.dependencies (
                  subst
                    (λ (n : PackageManifest).
                      All (λ d. has d t.visited ≡ true) (targets all n.dependencies))
                    same deps))
        ];
        same = finish-same;
        more = finish-more;
      }
