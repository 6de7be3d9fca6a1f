-- ===== src/Strategy/Semantics/Text/Controls.antt =====
-- What is read as a stop-loss or a take-profit.
use agentic_trading_platform.Prelude.{
  ◌≡◌, refl, true, false, Option, none, some, List, [], ◌∷◌, String, ok, >>=-eq-ok, >>-eq-ok, All,
  Some, All-map, All-Elem, Elem-Some, Bool-cases, arith, subst, if_any, raise_if,
}
use agentic_trading_platform.Decimal.{Decimal, IsOrdered}
use agentic_trading_platform.Strategy.Reading.{Reading, Numerals}
use agentic_trading_platform.Strategy.Semantics.{validate_risk_percent}
use agentic_trading_platform.Strategy.Semantics.Supported.{
  IsSupportedPercent, validate_risk_percent_iff,
}
use agentic_trading_platform.Strategy.Semantics.Text.{
  is_member, add_value, add_match, add_matches, collect_values, decide_control,
  extract_control_percent,
}

module _ {D : Type 0} ⦃d : Decimal D⦄ (ordered : IsOrdered d) where
  open ordered use {le_total}

  is_member-add_value : (v : D) (values : List D) → is_member v (add_value v values) ≡ true
  unfolding add_value
  is_member-add_value v values = ground (arith, le_total v v, Bool-cases (is_member v values))

module _ {D : Type 0} ⦃d : Decimal D⦄ where
  is_member_later :
      (w v : D) (values : List D)
      → is_member w values ≡ true
      → is_member w (add_value v values) ≡ true
  unfolding add_value
  is_member_later w v values h = ground (arith, Bool-cases (is_member v values))

module _ {D : Type 0} ⦃d : Decimal D⦄ ⦃r : Reading⦄ ⦃n : Numerals D⦄ (ordered : IsOrdered d) where
  -- The group was read as a number of the set.
  abbrev IsIn : List D → String → Type 0
  IsIn values group = (w : D) × (n.to_decimal group ≡ some w) × (is_member w values ≡ true)

  abbrev Keeps : List D → List D → Type 0
  Keeps values final = (w : D) → is_member w values ≡ true → is_member w final ≡ true

  add_match-IsIn :
      (label group : String) (o : Option D) (values : List D) {more : List D}
      → n.to_decimal group ≡ o
      → add_match label o values ≡ ok more
      → IsIn more group × Keeps values more
  unfolding add_match
  add_match-IsIn label group none values e h = absurd (cc)
  add_match-IsIn label group (some v) values {more} e h =
      let same : add_value v values ≡ more = cc in
      (
        (v, e, subst (λ l. is_member v l ≡ true) same (is_member-add_value ordered v values)),
        λ w m. subst (λ l. is_member w l ≡ true) same (is_member_later w v values m),
      )

  IsIn-later :
      (values final : List D) (group : String)
      → Keeps values final
      → IsIn values group
      → IsIn final group
  IsIn-later values final group keeps (w, e, m) = (w, e, keeps w m)

  add_matches-IsIn :
      (label : String) (groups : List String) (values : List D) {final : List D}
      → add_matches label groups values ≡ ok final
      → All (IsIn final) groups × Keeps values final
  unfolding add_matches
  add_matches-IsIn label [] values h = (tt, λ w m. subst (λ l. is_member w l ≡ true) (cc) m)
  add_matches-IsIn label (group ∷ rest) values h =
      let (more, e, k) = >>=-eq-ok (add_match label (n.to_decimal group) values) _ h in
      let one = add_match-IsIn label group (n.to_decimal group) values refl e in
      let others = add_matches-IsIn label rest more k in
      ((IsIn-later _ _ group others.1 one.0, others.0), λ w m. others.1 w (one.1 w m))

  collect_values-IsIn :
      (text label : String) (patterns : List String) (values : List D) {final : List D}
      → collect_values text label patterns values ≡ ok final
      → All (λ p. All (IsIn final) (r.find_values p text)) patterns × Keeps values final
  unfolding collect_values
  collect_values-IsIn text label [] values h = (tt, λ w m. subst (λ l. is_member w l ≡ true) (cc) m)
  collect_values-IsIn text label (p ∷ rest) values {final} h =
      let (more, e, k) = >>=-eq-ok (add_matches label (r.find_values p text) values) _ h in
      let one = add_matches-IsIn label (r.find_values p text) values e in
      let others = collect_values-IsIn text label rest more k in
      (
        (
          All-map (IsIn more) (IsIn final) _ (λ g. IsIn-later more final g others.1) one.0,
          others.0,
        ),
        λ w m. others.1 w (one.1 w m),
      )

  -- Every number of the set was read from the text.
  module _ (P : D → Type 0) where
    abbrev Reads : String → Type 0
    Reads group = (v : D) → n.to_decimal group ≡ some v → P v

    add_match-All :
        (label group : String) (o : Option D) (values : List D) {more : List D}
        → ((v : D) → o ≡ some v → P v)
        → All P values
        → add_match label o values ≡ ok more
        → All P more
    unfolding add_match add_value
    add_match-All label group none values f a h = absurd (cc)
    add_match-All label group (some v) values f a h =
        subst (All P) (cc)
          (if_any (All P) (is_member v values) {x = values} {y = v ∷ values} a (f v refl, a))

    add_matches-All :
        (label : String) (groups : List String) (values : List D) {final : List D}
        → All Reads groups
        → All P values
        → add_matches label groups values ≡ ok final
        → All P final
    unfolding add_matches
    add_matches-All label [] values f a h = subst (All P) (cc) a
    add_matches-All label (group ∷ rest) values f a h =
        let (more, e, k) = >>=-eq-ok (add_match label (n.to_decimal group) values) _ h in
        add_matches-All label rest more f.1 (add_match-All label group _ values f.0 a e) k

    collect_values-All :
        (text label : String) (patterns : List String) (values : List D) {final : List D}
        → All (λ p. All Reads (r.find_values p text)) patterns
        → All P values
        → collect_values text label patterns values ≡ ok final
        → All P final
    unfolding collect_values
    collect_values-All text label [] values f a h = subst (All P) (cc) a
    collect_values-All text label (p ∷ rest) values f a h =
        let (more, e, k) = >>=-eq-ok (add_matches label (r.find_values p text) values) _ h in
        collect_values-All text label rest more f.1 (add_matches-All label _ values f.0 a e) k

  -- The group reads as a number equal to `v`.
  abbrev IsEqual : D → String → Type 0
  IsEqual v group = (w : D) × (n.to_decimal group ≡ some w) × (d.le w v ≡ true) × (d.le v w ≡ true)

  -- The text gives a number, in a place where one of the patterns looks.
  abbrev IsGiven : String → List String → D → Type 0
  IsGiven text patterns v =
      Some (λ p. Some (λ group. n.to_decimal group ≡ some v) (r.find_values p text)) patterns

  -- What a text says of a control: one supported percentage, on which all places agree, or nothing,
  -- without even a mention of it.
  abbrev pub Says : String → List String → String → Option D → Type 0
  Says text patterns phrase none =
      All (λ p. r.find_values p text ≡ []) patterns × (r.search_ignoring_case phrase text ≡ false)
  Says text patterns phrase (some v) =
      IsSupportedPercent (some v)
      × IsGiven text patterns v
      × All (λ p. All (IsEqual v) (r.find_values p text)) patterns

  given :
      (text : String) (patterns : List String)
      → All (λ p. All (Reads (IsGiven text patterns)) (r.find_values p text)) patterns
  given text patterns =
      All-map _ _ patterns
        (λ p e.
          All-map _ _ (r.find_values p text)
            (λ group i v q.
              Elem-Some (λ x. Some (λ g. n.to_decimal g ≡ some v) (r.find_values x text)) e
                (Elem-Some (λ g. n.to_decimal g ≡ some v) i q))
            (All-Elem (r.find_values p text)))
        (All-Elem patterns)

  nothing-IsIn : (groups : List String) → All (IsIn []) groups → groups ≡ []
  nothing-IsIn [] a = refl
  nothing-IsIn (group ∷ rest) ((w, e, m), a) = absurd (cc)

  IsEqual-IsIn : (v : D) (group : String) → IsIn (v ∷ []) group → IsEqual v group
  IsEqual-IsIn v group (w, e, m) = (w, e, ground arith, ground arith)

  decide_control-Says :
      (text : String) (patterns : List String) (phrase label : String) (values : List D)
      {answer : Option D}
      → All (λ p. All (IsIn values) (r.find_values p text)) patterns
      → All (IsGiven text patterns) values
      → decide_control text phrase label values ≡ ok answer
      → Says text patterns phrase answer
  unfolding decide_control
  decide_control-Says text patterns phrase label [] a g h =
      let (check, e) = >>-eq-ok (raise_if (r.search_ignoring_case phrase text) _) _ h in
      let silent : r.search_ignoring_case phrase text ≡ false = ground arith in
      subst (Says text patterns phrase) {x = none} (cc) (
        All-map _ (λ p. r.find_values p text ≡ []) patterns
            (λ p. nothing-IsIn (r.find_values p text)) a,
        silent,
      )
  decide_control-Says text patterns phrase label (v ∷ []) a g h =
      let (check, e) = >>-eq-ok (validate_risk_percent (some v) label) _ h in
      subst (Says text patterns phrase) {x = some v} (cc) (
        (validate_risk_percent_iff (some v) label).0 check,
        g.0,
        All-map _ _ patterns (λ p. All-map _ _ (r.find_values p text) (IsEqual-IsIn v)) a,
      )
  decide_control-Says text patterns phrase label (v ∷ w ∷ rest) a g h = absurd (cc)

  -- If the percentage of a control is read without an exception, then either the text gives a
  -- supported percentage, with which every other number that the patterns find is equal, or they find
  -- nothing and the text does not mention the control.
  pub extract_control_percent-Says :
      (text : String) (patterns : List String) (phrase label : String) (answer : Option D)
      → extract_control_percent text patterns phrase label ≡ ok answer
      → Says text patterns phrase answer
  unfolding extract_control_percent
  extract_control_percent-Says text patterns phrase label answer h =
      let (values, e, k) = >>=-eq-ok (collect_values text label patterns []) _ h in
      decide_control-Says text patterns phrase label values
        (collect_values-IsIn text label patterns [] e).0
        (collect_values-All (IsGiven text patterns) text label patterns [] (given text patterns) tt
          e)
        k
