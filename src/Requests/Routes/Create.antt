-- ===== src/Requests/Routes/Create.antt =====
-- What POST /requests adds, and what it refuses.
use text.Mathlib.TextPositions.{eq_refl}
use skaus.Prelude.{ℕ, String, ◌≡◌, refl, none, some, [], arith, ◌∙◌}
use skaus.Requests.Row.{Numbers, pending, StoredRequest}
use skaus.Requests.Routes.{
  CreateBody, created, taken_slug, Requests, slug_of, slug_exists, refused_body, new_row,
  create_request,
}

module _ (n : Numbers) (join : String → String → String) (m : Requests n join)
    (lower : String → String) where
  open n use {Number}
  open m use {Table, find, find_key, create, find-create, find_key-create}

  module _ (id : String) (now : ℕ) (b : CreateBody Number) (t : Table)
      (valid : refused_body n join m lower b ≡ none) where
    -- A valid request whose link is free makes a pending row without payments, and both the id and
    -- the link lead to it.
    create_request-found :
        find id t ≡ none
        → find_key (join b.username (slug_of n join m lower b)) t ≡ none
        → let r = new_row n join m lower id now b in
          let t' = create r t in
          (create_request n join m lower id now b t ≡ (t', created r))
          × (find id t' ≡ some r)
          × (find_key (join b.username (slug_of n join m lower b)) t' ≡ some r)
          × (r.status ≡ pending)
          × (r.payments ≡ [])
    unfolding create_request slug_exists new_row
    create_request-found absent free =
        let r = new_row n join m lower id now b in
        let key = join b.username (slug_of n join m lower b) in
        (
          ground (arith, valid, free),
          find-create r id t absent ∙ rw (eq_refl id) refl,
          find_key-create r key t free ∙ rw (eq_refl key) refl,
          refl,
          refl,
        )

    -- A valid request whose link is taken is refused with that link's slug, and adds nothing.
    create_request-taken :
        (r : StoredRequest Number)
        → find_key (join b.username (slug_of n join m lower b)) t ≡ some r
        → create_request n join m lower id now b t ≡ (t, taken_slug (slug_of n join m lower b))
    unfolding create_request slug_exists
    create_request-taken r h = ground (arith, valid, h)
