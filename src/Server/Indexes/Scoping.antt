-- ===== src/Server/Indexes/Scoping.antt =====
-- What the handlers for indexes let through to the service.
use parqdb.Prelude.{
  ℕ, String, List, [], ◌∷◌, ◌≡◌, refl, ap, ◌∙◌, ◌⊎◌, inl, inr, Option, IfSome, true, ◌==◌, eq_iff,
  subst,
}
use parqdb.Python.Exceptions.{
  Result, ok, err, Exception, >>=-eq-ok, ok_injective, require, require-eq_ok,
}
use parqdb.Python.Action.{Action, lift, after, ◌>>=◌, ◌>>◌}
use parqdb.Python.Value.{Value, Fields, get, null, bool}
use parqdb.Text.Quote.{unquote}
use parqdb.Identifier.{TableIdentifier, IsValid}
use parqdb.Config.{Ivf, WriteOptions}
use parqdb.Config.Laws.{IsIvf, IsWriteOptions}
use parqdb.Models.Identifiers.{identifier_from_json}
use parqdb.Models.Identifiers.RoundTrip.{identifier_from_json-IsValid}
use parqdb.Models.Indexes.{ivf_from_json, writer_options_from_json}
use parqdb.Models.Indexes.Validity.{ivf_from_json-IsIvf, writer_options_from_json-IsWriteOptions}
use parqdb.Models.Registration.{Arrow}
use parqdb.Server.Routes.{
  Route, validate_route_identifier, required_string, scoped_identifier, scoped_index,
}
use parqdb.Server.Requests.{Request, Response, json_body, only_fields}
use parqdb.Server.Service.{App}
use parqdb.Server.Tables.{respond}
use parqdb.Server.Indexes.{optional_ivf, refresh, drop}

-- The request's route names this table.
pub record IsRouted (r : Route) (t : TableIdentifier) : Type 0 where
  pub valid : IsValid t
  pub routed : validate_route_identifier r t ≡ ok tt

pub scoped_identifier-IsRouted :
    (r : Route) (body : Fields) (field : String) (t : TableIdentifier)
    → scoped_identifier r body field ≡ ok t
    → IsRouted r t
unfolding scoped_identifier
scoped_identifier-IsRouted r body field t h =
    let (u, e, h₁) = >>=-eq-ok (identifier_from_json (get body field)) _ h in
    let (done, e₁, h₂) = >>=-eq-ok (validate_route_identifier r u) _ h₁ in
    let same = ok_injective h₂ in
    record {
      valid = subst IsValid same (identifier_from_json-IsValid _ u e);
      routed = subst (λ x. validate_route_identifier r x ≡ ok tt) same e₁;
    }

scoped_index-eq_ok :
    (r : Route) (body : Fields) (index : String)
    → scoped_index r body ≡ ok index
    → unquote r.index_name ≡ index
unfolding scoped_index
scoped_index-eq_ok r body index h =
    let (found, _, h₁) = >>=-eq-ok (required_string (get body "index") "index") _ h in
    let (done, e, h₂) = >>=-eq-ok (require (unquote r.index_name == found) _ _) _ h₁ in
    (eq_iff (unquote r.index_name) found).0 (require-eq_ok _ _ _ e) ∙ ok_injective h₂

-- A request that is answered with an error, the service untouched.
abbrev pub Refused : {S A : Type 0} → Result A × S → S → Type 0
Refused result s = (e : Exception) × (result ≡ (err e, s))

lift-cases :
    {S A B : Type 0} (m : Result A) (f : A → Action S B) (s : S)
    → Refused ((lift m >>= f) s) s ⊎ ((a : A) × (m ≡ ok a) × ((lift m >>= f) s ≡ f a s))
lift-cases (ok a) f s = inr (a, refl, refl)
lift-cases (err e) f s = inl (e, refl)

Refused-after : {S A : Type 0} (x y : Result A × S) (s : S) → x ≡ y → Refused y s → Refused x s
Refused-after x y s h (e, same) = (e, h ∙ same)

-- The steps that every handler for a named index begins with, before the rest `k`.
module _ {S A : Type 0} (loads : List ℕ → Option Value) (fields : List String) (r : Request)
    (k : Fields → TableIdentifier → String → Action S A) where
  abbrev with_index : Fields → TableIdentifier → Action S A
  with_index body t = lift (scoped_index r.route body) >>= k body t

  abbrev with_table : Fields → Action S A
  with_table body = lift (scoped_identifier r.route body "source") >>= with_index body

  abbrev with_fields : Fields → Action S A
  with_fields body = lift (only_fields body fields) >>= λ _. with_table body

  abbrev addressed : Action S A
  addressed = lift (json_body loads r) >>= with_fields

  addressed-cases :
      (s : S)
      → Refused (addressed s) s
        ⊎ ((body : Fields) × (t : TableIdentifier) × (index : String) × IsRouted r.route t
            × (unquote r.route.index_name ≡ index)
            × (addressed s ≡ k body t index s))
  addressed-cases s = elim (lift-cases (json_body loads r) with_fields s) [
    | inl stop ↦ inl stop
    | inr (body, _, e) ↦ elim (lift-cases (only_fields body fields) (λ _. with_table body) s) [
      | inl stop ↦ inl (Refused-after _ _ s e stop)
      | inr (_, _, e') ↦
          elim (lift-cases (scoped_identifier r.route body "source") (with_index body) s) [
            | inl stop ↦ inl (Refused-after _ _ s (e ∙ e') stop)
            | inr (t, found, e'') ↦ elim (lift-cases (scoped_index r.route body) (k body t) s) [
              | inl stop ↦ inl (Refused-after _ _ s (e ∙ e' ∙ e'') stop)
              | inr (index, named, last) ↦ inr (
                body,
                t,
                index,
                scoped_identifier-IsRouted r.route body "source" t found,
                scoped_index-eq_ok r.route body index named,
                e ∙ e' ∙ e'' ∙ last,
              )
            ]
          ]
    ]
  ]

optional_ivf-IsIvf : (v : Value) (o : Option Ivf) → optional_ivf v ≡ ok o → IfSome IsIvf o
optional_ivf-IsIvf null o h = rw (← ok_injective h) tt
optional_ivf-IsIvf v o h =
    let (c, e, last) = >>=-eq-ok (ivf_from_json v) _ h in
    rw (← ok_injective last) (ivf_from_json-IsIvf v c e)

-- A step after which nothing more is asked of the service.
then-state :
    {S A B : Type 0} (p : Result A × S) (b : Result B) → (after p.0 p.1 (λ _. lift b)).1 ≡ p.1
then-state (ok a, s) b = refl
then-state (err e, s) b = refl

module _ {arrow : Arrow} {S Batches Stream : Type 0} (app : App arrow S Batches Stream) where
  abbrev answer : Request → ℕ → String → Result (Response Stream)
  answer r status field = ok (respond r status ((field, bool true) ∷ []))

  -- A request to drop an index either ends in an error with the service's state as it was, or
  -- leaves the state that the service's own drop leaves for a valid table that the route check
  -- accepts and an index that is the route's index name, percent-decoded.
  pub drop_scoped :
      (r : Request) (s : S)
      → Refused (drop app r s) s
        ⊎ ((t : TableIdentifier) × (index : String) × IsRouted r.route t
            × (unquote r.route.index_name ≡ index)
            × ((drop app r s).1 ≡ (app.service.drop_index t index s).1))
  unfolding drop
  drop_scoped r s =
      elim (addressed-cases app.loads ("source" ∷ "index" ∷ []) r
        (λ body t index. app.service.drop_index t index >> lift (answer r 200 "dropped")) s) [
          | inl stop ↦ inl stop
          | inr (body, t, index, routed, named, e) ↦ inr (
            t,
            index,
            routed,
            named,
            ap (λ p. p.1) e
                ∙ then-state (app.service.drop_index t index s) (answer r 200 "dropped"),
          )
        ]

  abbrev refresh_rest : Request → Fields → TableIdentifier → String → Action S (Response Stream)
  refresh_rest r body t index = lift (optional_ivf (get body "config")) >>= λ config.
      lift (writer_options_from_json (get body "writer_options")) >>= λ options.
      app.service.refresh_index t index config options >> lift (answer r 202 "accepted")

  refresh_rest-cases :
      (r : Request) (body : Fields) (t : TableIdentifier) (index : String) (s : S)
      → Refused (refresh_rest r body t index s) s
        ⊎ ((config : Option Ivf) × (options : Option WriteOptions) × (optional_ivf
                (get body "config")
              ≡ ok config)
            × (writer_options_from_json (get body "writer_options") ≡ ok options)
            × ((refresh_rest r body t index s).1
                ≡ (app.service.refresh_index t index config options s).1))
  refresh_rest-cases r body t index s =
      elim (lift-cases (optional_ivf (get body "config"))
        (λ config. lift (writer_options_from_json (get body "writer_options")) >>= λ options.
          app.service.refresh_index t index config options >> lift (answer r 202 "accepted"))
        s) [
          | inl stop ↦ inl stop
          | inr (config, c, e) ↦
              elim (lift-cases (writer_options_from_json (get body "writer_options"))
                (λ options.
                  app.service.refresh_index t index config options
                  >> lift (answer r 202 "accepted"))
                s) [
                  | inl stop ↦ inl (Refused-after _ _ s e stop)
                  | inr (options, o, e') ↦ inr (
                    config,
                    options,
                    c,
                    o,
                    ap (λ p. p.1) (e ∙ e')
                        ∙ then-state (app.service.refresh_index t index config options s)
                            (answer r 202 "accepted"),
                  )
                ]
        ]

  -- A request to refresh an index either ends in an error with the service's state as it was,
  -- or leaves the state that the service's own refresh leaves for a valid table that the route
  -- check accepts, the index that the route names, and an optional IVF configuration and
  -- optional writer options that satisfy every documented constraint.
  pub refresh_scoped :
      (r : Request) (s : S)
      → Refused (refresh app r s) s
        ⊎ ((t : TableIdentifier) × (index : String) × (config : Option Ivf) × (options : Option
              WriteOptions)
            × IsRouted r.route t
            × (unquote r.route.index_name ≡ index)
            × IfSome IsIvf config
            × IfSome IsWriteOptions options
            × ((refresh app r s).1 ≡ (app.service.refresh_index t index config options s).1))
  unfolding refresh
  refresh_scoped r s =
      elim (addressed-cases app.loads ("source" ∷ "index" ∷ "config" ∷ "writer_options" ∷ []) r
        (refresh_rest r) s) [
          | inl stop ↦ inl stop
          | inr (body, t, index, routed, named, e) ↦ elim (refresh_rest-cases r body t index s) [
            | inl stop ↦ inl (Refused-after _ _ s e stop)
            | inr (config, options, c, o, e') ↦ inr (
              t,
              index,
              config,
              options,
              routed,
              named,
              optional_ivf-IsIvf _ config c,
              writer_options_from_json-IsWriteOptions _ options o,
              ap (λ p. p.1) e ∙ e',
            )
          ]
        ]
