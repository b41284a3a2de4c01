-- ===== src/Mcp/Resources/Covered.antt =====
-- Which resource a resolver of internal/mcp/resource.go sends.
use mcpshim.Prelude.{
  ◌≡◌, refl, ◌⊎◌, true, false, none, some, List, [], ◌∷◌, if◌then◌else◌, is_empty, is_one_of,
  text_eq_refl, Text, arith, inl, inr, Option-cases, Bool-cases,
}
use mcpshim.Mcp.Resources.{
  Urls, Metadata, Resolver, new_resource_resolver, canonical_resource_uri,
  protected_resource_metadata_urls, resource_covers_server, published_from,
  fetch_published_resource, resolve,
}

-- A metadata document at one of the locations publishes the resource.
abbrev pub IsPublished : Metadata → List Text → Text → Type 0
IsPublished metadata locations resource =
    (location : Text) × (is_one_of locations location ≡ true) × (metadata location ≡ some resource)

first_of :
    (location : Text) (locations : List Text) → is_one_of (location ∷ locations) location ≡ true
unfolding is_one_of
first_of location locations = rw (text_eq_refl location) refl

later_of :
    (location at : Text) (locations : List Text)
    → is_one_of locations at ≡ true
    → is_one_of (location ∷ locations) at ≡ true
unfolding is_one_of
later_of location at locations listed = ground (arith, listed)

module _ (urls : Urls) where
  -- No resource, or one that is published and covers the server.
  abbrev IsClaimable : Metadata → List Text → Text → Text → Type 0
  IsClaimable metadata locations canonical resource =
      (resource ≡ [])
      ⊎ (IsPublished metadata locations resource
          × (resource_covers_server urls resource canonical ≡ true))

  later-IsClaimable :
      (metadata : Metadata) (location : Text) (locations : List Text) (canonical resource : Text)
      → IsClaimable metadata locations canonical resource
      → IsClaimable metadata (location ∷ locations) canonical resource
  later-IsClaimable metadata location locations canonical resource (inl absent) = inl absent
  later-IsClaimable metadata location locations canonical resource
        (inr ((at, listed, answered), covers)) =
      inr ((at, later_of location at locations listed, answered), covers)

  published_from-IsClaimable :
      (metadata : Metadata) (canonical : Text) (locations : List Text)
      → IsClaimable metadata locations canonical (published_from urls metadata canonical locations)
  unfolding published_from
  published_from-IsClaimable metadata canonical [] = inl refl
  published_from-IsClaimable metadata canonical (location ∷ locations) =
      elim (Option-cases (metadata location)) [
        | inl unanswered ↦
            rw (unanswered, published_from)
              (later-IsClaimable metadata location locations canonical _
                (published_from-IsClaimable metadata canonical locations))
        | inr (resource, answered) ↦ elim (Bool-cases (is_empty resource)) [
          | inl empty ↦ rw (answered, empty, published_from) (inl refl)
          | inr named ↦ elim (Bool-cases (resource_covers_server urls resource canonical)) [
            | inr other ↦ rw (answered, named, other, published_from) (inl refl)
            | inl covers ↦
                rw (answered, named, covers, published_from)
                  (inr ((location, first_of location locations, answered), covers))
          ]
        ]
      ]

  -- What a resolver may give for the server of a URL.
  abbrev pub IsChosen : Metadata → Text → Text → Type 0
  IsChosen metadata server_url resource =
      ((canonical_resource_uri urls server_url ≡ none) × (resource ≡ []))
      ⊎ ((canonical : Text) × (canonical_resource_uri urls server_url ≡ some canonical)
          × ((resource ≡ canonical)
              ⊎ (IsPublished metadata (protected_resource_metadata_urls urls canonical) resource
                  × (resource_covers_server urls resource canonical ≡ true))))

  choice :
      (metadata : Metadata) (locations : List Text) (canonical published : Text)
      → IsClaimable metadata locations canonical published
      → (let resource = if is_empty published then canonical else published in
          (resource ≡ canonical)
          ⊎ (IsPublished metadata locations resource
              × (resource_covers_server urls resource canonical ≡ true)))
  choice metadata locations canonical [] claimable = inl refl
  choice metadata locations canonical (c ∷ published) (inl absent) = cc
  choice metadata locations canonical (c ∷ published) (inr claimed) = inr claimed

  resolve-again :
      (metadata later : Metadata) (r : Resolver)
      → r.resolved ≡ false
      → r.value ≡ []
      → IsChosen metadata r.server_url (resolve urls metadata r).0
        × (resolve urls later (resolve urls metadata r).1 ≡ resolve urls metadata r)
  unfolding resolve fetch_published_resource published_from
  resolve-again metadata later r fresh empty =
      elim (Option-cases (canonical_resource_uri urls r.server_url)) [
        | inl absent ↦ rw (fresh, absent, empty, resolve) (inl (refl, refl), refl)
        | inr (canonical, present) ↦
            let locations = protected_resource_metadata_urls urls canonical in
            let published = fetch_published_resource urls metadata canonical in
            let claimable = published_from-IsClaimable metadata canonical locations in
            rw (fresh, present, resolve)
              (inr (canonical, refl, choice metadata locations canonical published claimable), refl)
      ]

  -- The resource that a new resolver gives is none, where the URL of the server has no canonical
  -- form; or that form; or one that a metadata document at a location for this form publishes, and
  -- that covers the server. A later call gives the same one, whatever the network answers then.
  pub resolve-IsChosen :
      (metadata later : Metadata) (server_url : Text)
      → IsChosen metadata server_url (resolve urls metadata (new_resource_resolver server_url)).0
        × (resolve urls later (resolve urls metadata (new_resource_resolver server_url)).1
            ≡ resolve urls metadata (new_resource_resolver server_url))
  unfolding new_resource_resolver
  resolve-IsChosen metadata later server_url =
      resolve-again metadata later (new_resource_resolver server_url) refl refl
