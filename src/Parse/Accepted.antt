-- ===== src/Parse/Accepted.antt =====
-- apps/scraper/parse.py, `parse_api_response`: exactly what it accepts.
use dsa_api.Base.{
  true, false, ◌≡◌, refl, sym, ap, ◌∙◌, ◌↔◌, Option, none, some, List, Dict, get, arith, Bool-cases,
  inl, inr,
}
use dsa_api.Text.{Text, text, text_discrete}
use dsa_api.Json.{
  Json, Items, Members, null, boolean, number, string, array, object, elements, entries,
}
use dsa_api.Parse.Envelope.{
  EnvelopeError, rows, rejected, unsuccessful, is_failure, rows_of, envelope_of, parse_api_response,
}

-- The payload is an object that does not report a failure and has a list of these rows.
pub record IsEnvelope (loads : Text → Option Json) (payload : Text) (found : List Json)
    : Type 0 where
  pub members : Members
  pub items : Items
  pub decoded : loads payload ≡ some (object members)
  pub successful : is_failure (get text_discrete (text "wtstatus") (entries members)) ≡ false
  pub listed : get text_discrete (text "data") (entries members) ≡ some (array items)
  pub same : found ≡ elements items

rows_of-array : (items : Items) → rows_of (some (array items)) ≡ rows (elements items)
unfolding rows_of
rows_of-array items = refl

rows_of-rows :
    (j : Option Json) (found : List Json)
    → rows_of j ≡ rows found
    → (items : Items) × (j ≡ some (array items)) × (found ≡ elements items)
unfolding rows_of
rows_of-rows none found h = absurd (grind arith)
rows_of-rows (some null) found h = absurd (grind arith)
rows_of-rows (some (boolean b)) found h = absurd (grind arith)
rows_of-rows (some (number n)) found h = absurd (grind arith)
rows_of-rows (some (string s)) found h = absurd (grind arith)
rows_of-rows (some (array items)) found h = (items, refl, grind arith)
rows_of-rows (some (object o)) found h = absurd (grind arith)

envelope_of-success :
    (d : Dict Text Json)
    → is_failure (get text_discrete (text "wtstatus") d) ≡ false
    → envelope_of d ≡ rows_of (get text_discrete (text "data") d)
unfolding envelope_of
envelope_of-success d h = rw (h, envelope_of) refl

envelope_of-failure :
    (d : Dict Text Json)
    → is_failure (get text_discrete (text "wtstatus") d) ≡ true
    → envelope_of d ≡ rejected unsuccessful
unfolding envelope_of
envelope_of-failure d h = rw (h, envelope_of) refl

rejected_rows : (e : EnvelopeError) (found : List Json) → ¬ (rejected e ≡ rows found)
rejected_rows e found h = grind arith

module _ (loads : Text → Option Json) where
  decoded_object :
      (payload : Text) (members : Members)
      → loads payload ≡ some (object members)
      → parse_api_response loads payload ≡ envelope_of (entries members)
  unfolding parse_api_response
  decoded_object payload ms e = rw (e, parse_api_response) refl

  decoded_rows :
      (payload : Text) (found : List Json) (o : Option Json)
      → loads payload ≡ o
      → parse_api_response loads payload ≡ rows found
      → (members : Members) × (loads payload ≡ some (object members))
        × (envelope_of (entries members) ≡ rows found)
  unfolding parse_api_response
  decoded_rows payload found none e h = absurd (grind (arith, e))
  decoded_rows payload found (some null) e h = absurd (grind (arith, e))
  decoded_rows payload found (some (boolean b)) e h = absurd (grind (arith, e))
  decoded_rows payload found (some (number n)) e h = absurd (grind (arith, e))
  decoded_rows payload found (some (string s)) e h = absurd (grind (arith, e))
  decoded_rows payload found (some (array a)) e h = absurd (grind (arith, e))
  decoded_rows payload found (some (object members)) e h =
      (members, e, sym (decoded_object payload members e) ∙ h)

  -- A payload gives rows exactly if it decodes to an object that does not report a failure and
  -- has a list of these rows.
  pub parse_api_response_iff :
      (payload : Text) (found : List Json)
      → (parse_api_response loads payload ≡ rows found) ↔ IsEnvelope loads payload found
  parse_api_response_iff payload found = (
    (λ h.
        let (members, decoded, e) = decoded_rows payload found (loads payload) refl h in
        elim (Bool-cases (is_failure (get text_discrete (text "wtstatus") (entries members)))) [
          | inl f ↦
              absurd (
                rejected_rows unsuccessful found
                  (sym (envelope_of-failure (entries members) f) ∙ e))
          | inr f ↦
              let (items, listed, same) =
                rows_of-rows (get text_discrete (text "data") (entries members)) found
                  (sym (envelope_of-success (entries members) f) ∙ e) in
              record {
                members = members;
                items = items;
                decoded = decoded;
                successful = f;
                listed = listed;
                same = same;
              }
        ]),
    (λ e.
        decoded_object payload e.members e.decoded
        ∙ envelope_of-success (entries e.members) e.successful
        ∙ ap rows_of e.listed
        ∙ rows_of-array e.items
        ∙ ap rows (sym e.same)),
  )
