-- ===== src/Ingest/Applier/PublishAll.antt =====
-- The loop of `Apply` that publishes the prepared rows (src/ingest/update_applier.cc): its effect on the
-- store of tables, on every branch.
use kv_index.Prelude.{
  ℕ, ◌≡◌, refl, ap, subst, ◌∙◌, true, List, [], ◌∷◌, All, arith, inl, inr, Bool-cases,
}
use kv_index.Status.{Status, is_ok}
use kv_index.Ingest.Applier.{Tables, PreparedPublish, publish_to, publish_all}
use kv_index.Ingest.Applier.Stored.{
  AllConsistent, ShowsFrom, Effect, publish_to-Effect, publish_to-ShowsFrom,
}

abbrev pub Owns : ℕ → PreparedPublish → Type 0
Owns key p = p.primary_key ≡ key

pub Effect-chain : (key : ℕ) (a b c : Tables) → Effect key a b → Effect key b c → Effect key a c
Effect-chain key a b c f g = record {
  consistent = g.consistent;
  keeps = λ pointer j position h. g.keeps pointer j position (f.keeps pointer j position h);
  others = λ j ne id table here.
      let first = f.others j ne id table here in
      let second = g.others j ne id (first.0) (first.1) in (second.0, second.1, second.2 ∙ first.2);
}

pub publish_all-Effect :
    (key : ℕ) (ps : List PreparedPublish) (tables : Tables)
    → All (Owns key) ps
    → AllConsistent tables
    → Effect key tables (publish_all ps tables).1
unfolding publish_all
publish_all-Effect key [] tables own c = record {
  consistent = c;
  keeps = λ pointer j position h. h;
  others = λ j ne id table h. (table, h, refl);
}
publish_all-Effect key (p ∷ ps) tables own c =
    let next = (publish_to p p.table tables).1 in
    let first : Effect key tables next =
      subst (λ (k : ℕ). Effect k tables next) (own.0) (publish_to-Effect p tables c) in
    elim (Bool-cases (is_ok (publish_to p p.table tables).0)) [
      | inl succeeds ↦
          let rest = publish_all-Effect key ps next (own.1) first.consistent in
          subst (Effect key tables) (ground (arith, succeeds))
            (Effect-chain key tables next (publish_all ps next).1 first rest)
      | inr fails ↦ subst (Effect key tables) (ground (arith, fails)) first
    ]

pub publish_all-ShowsFrom :
    (key : ℕ) (ps : List PreparedPublish) (tables : Tables)
    → All (Owns key) ps
    → AllConsistent tables
    → is_ok (publish_all ps tables).0 ≡ true
    → All (λ p. ShowsFrom (publish_all ps tables).1 p.table p.primary_key p.position) ps
unfolding publish_all
publish_all-ShowsFrom key [] tables own c succeeds = tt
publish_all-ShowsFrom key (p ∷ ps) tables own c succeeds =
    elim (Bool-cases (is_ok (publish_to p p.table tables).0)) [
      | inr fails ↦ absurd (ground (arith, fails, succeeds))
      | inl done ↦
          let next = (publish_to p p.table tables).1 in
          let first = publish_to-Effect p tables c in
          let same : publish_all ps next ≡ publish_all (p ∷ ps) tables = ground (arith, done) in
          let rest_succeeds : is_ok (publish_all ps next).0 ≡ true =
            ap (λ (t : Status × Tables). is_ok (t.0)) same ∙ succeeds in
          let rest = publish_all-Effect key ps next (own.1) first.consistent in
          let here =
            rest.keeps p.table p.primary_key p.position (publish_to-ShowsFrom p tables c done) in
          subst
            (λ (t : Status × Tables).
              All (λ q. ShowsFrom (t.1) q.table q.primary_key q.position) (p ∷ ps))
            same (here, publish_all-ShowsFrom key ps next (own.1) first.consistent rest_succeeds)
    ]
