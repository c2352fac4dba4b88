-- ===== src/Storage/Publication/Ledger.antt =====
-- What a project's chain of authority promises: its head is the number of its events and the fold of
-- their digests, and every event extends the chain before it.
use model_forge.Prelude.{
  ◌+◌, ◌≤◌, String, ◌==◌, ◌≡◌, Option, none, some, List, [], ◌∷◌, length, find?, if◌then◌else◌,
}
use model_forge.Storage.Schema.Rows.{Hub, ProjectRow, AuthorityRow, rowcount}
use model_forge.Storage.Schema.Publication.{zero_sha256}

-- The content digests of the events of a project, the newest first.
unfoldable pub digests : String → List AuthorityRow → List String
digests key [] = []
digests key (row ∷ rows) =
    let rest = digests key rows in if row.project_id == key then row.content_sha256 ∷ rest else rest

module _ (chained : (root content : String) → String) where
  -- The root that a list of digests gives, from that of the empty chain.
  unfoldable pub root_of : List String → String
  root_of [] = zero_sha256
  root_of (content ∷ contents) = chained (root_of contents) content

  -- Each event carries the number and the roots of its place in the chain of its project.
  abbrev pub IsChain : List AuthorityRow → Type 0
  IsChain [] = Unit
  IsChain (row ∷ rows) =
      (row.sequence ≡ length (digests row.project_id rows) + 1)
      × (row.prior_root_sha256 ≡ root_of (digests row.project_id rows))
      × (row.root_sha256 ≡ chained row.prior_root_sha256 row.content_sha256)
      × IsChain rows

  -- The head that the row of a project has, for the digests of its events.
  abbrev pub IsHead : Option ProjectRow → List String → Type 0
  IsHead none contents = contents ≡ []
  IsHead (some project) contents =
      (project.authority_sequence ≡ length contents)
      × (project.authority_root_sha256 ≡ root_of contents)

  pub record IsLedgerOf (projects : List ProjectRow) (events : List AuthorityRow) : Type 0 where
    pub unique : (key : String) → rowcount (λ row. row.project_id == key) projects ≤ 1
    pub chain : IsChain events
    pub heads :
        (key : String) → IsHead (find? (λ row. row.project_id == key) projects) (digests key events)

  abbrev pub IsLedger : Hub → Type 0
  IsLedger h = IsLedgerOf h.projects h.authority_events
