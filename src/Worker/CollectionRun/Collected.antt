-- ===== src/Worker/CollectionRun/Collected.antt =====
-- Which providers of a collection job count as collected, and how many files they give.
use invoices_codex.Prelude.{
  ℕ, String, ◌+◌, ◌≡◌, refl, Bool, true, false, not, ◌&&◌, Option, none, some, inl, inr, List, [],
  ◌∷◌, ◌++◌, ◌==◌, arith, truthy?, length, Option-cases, Bool-cases, List-cases, eqb, if◌then◌else◌,
}
use invoices_codex.Env.{Env}
use invoices_codex.Models.{CollectionJob, ProviderConfig}
use invoices_codex.Store.{Session, ok, raised, Outcome-cases}
use invoices_codex.Worker.Storage.{Disk, save_bytes}
use invoices_codex.Worker.CollectionRun.{
  CollectionTools, CollectedProviderFile, Failure, Progress, provider_of, add_failure,
  add_downloaded, with_no_files,
}
use invoices_codex.Worker.CollectionRun.Steps.{
  collect_file, collect_files, collect_provider, collect_providers, file_name_of, upload_key,
}

-- No file is empty, and the number of those that are not.
unfoldable pub none_empty : List CollectedProviderFile → Bool
none_empty [] = true
none_empty (f ∷ fs) = not (f.content == "") && none_empty fs

unfoldable pub full_count : List CollectedProviderFile → ℕ
full_count [] = 0
full_count (f ∷ fs) = (if f.content == "" then 0 else 1) + full_count fs

-- What the executor gives for a provider that is connected with a token.
unfoldable pub files_given :
    CollectionTools → CollectionJob → Option ProviderConfig → Option (List CollectedProviderFile)
files_given tools job none = none
files_given tools job (some p) =
    if p.connection_status == "connected" && truthy? p.oauth_access_token_enc
    then elim (tools.execute_provider p job.month_scope job.id) [
      | raised e ↦ none
      | ok files ↦ some files
    ]
    else none

-- Every provider that the job names is there, is connected with a token, and gives files without an exception, of
-- which none is empty.
unfoldable pub all_collected :
    CollectionTools → CollectionJob → List ProviderConfig → List String → Bool
all_collected tools job rows [] = true
all_collected tools job rows (name ∷ names) =
    (elim (files_given tools job (provider_of name rows)) [
      | none ↦ false
      | some files ↦ none_empty files
    ])
    && all_collected tools job rows names

-- The numbers of files given, and of those that are not empty.
unfoldable pub discovered : CollectionTools → CollectionJob → List ProviderConfig → List String → ℕ
discovered tools job rows [] = 0
discovered tools job rows (name ∷ names) =
    (elim (files_given tools job (provider_of name rows)) [ none ↦ 0 | some files ↦ length files ])
    + discovered tools job rows names

unfoldable pub downloaded : CollectionTools → CollectionJob → List ProviderConfig → List String → ℕ
downloaded tools job rows [] = 0
downloaded tools job rows (name ∷ names) =
    (elim (files_given tools job (provider_of name rows)) [
      | none ↦ 0
      | some files ↦ full_count files
    ])
    + downloaded tools job rows names

abbrev pub no_failures : List Failure → Bool
no_failures [] = true
no_failures (f ∷ fs) = false

no_failures-append : (fs : List Failure) (f : Failure) → no_failures (fs ++ f ∷ []) ≡ false
no_failures-append [] f = refl
no_failures-append (g ∷ fs) f = refl

-- What a stage adds to the progress: whether it has failures, and the two counts.
abbrev Adds : Progress → Progress → Bool → ℕ → ℕ → Type 0
Adds p p' clean m n =
    (no_failures p'.failures ≡ (no_failures p.failures && clean))
    × (p'.files_discovered ≡ p.files_discovered + m)
    × (p'.files_downloaded ≡ p.files_downloaded + n)

failure-Adds :
    (p : Progress) (provider code message : String)
    → Adds p (add_failure p provider code message) false 0 0
unfolding add_failure
failure-Adds p provider code message =
    (ground (arith, no_failures-append p.failures), omega arith, omega arith)

downloaded-Adds :
    (p : Progress) (provider id : String) → Adds p (add_downloaded p provider id) true 0 1
unfolding add_downloaded
downloaded-Adds p provider id = (ground arith, omega arith, refl)

module _ (env : Env) (disk : Disk) (tools : CollectionTools) (now : ℕ) (job : CollectionJob) where
  collect_file-Adds :
      (provider : String) (idx : ℕ) (f : CollectedProviderFile) (p p' : Progress) (s : Session)
      → (collect_file env disk tools now job provider idx f p s).0 ≡ ok p'
      → Adds p p' (not (f.content == "")) 0 (if f.content == "" then 0 else 1)
  unfolding collect_file save_bytes add_failure add_downloaded
  collect_file-Adds provider idx f p p' s h = elim (Bool-cases (f.content == "")) [
    | inl empty ↦ (ground (arith, no_failures-append p.failures), ground arith, ground arith)
    | inr full ↦
        let name = file_name_of env disk tools provider idx f in
        let key = upload_key env disk tools job provider (env.uuid4 s.outside.drawn) name in
        elim (Option-cases (disk.write_fault key)) [
          | inl fine ↦ (ground arith, ground arith, ground arith)
          | inr (e, refused) ↦ absurd (ground arith)
        ]
  ]

  collect_files-Adds :
      (provider : String) (idx : ℕ) (fs : List CollectedProviderFile) (p p' : Progress)
      (s : Session)
      → (collect_files env disk tools now job provider idx fs p s).0 ≡ ok p'
      → Adds p p' (none_empty fs) 0 (full_count fs)
  unfolding collect_files none_empty full_count
  collect_files-Adds provider idx [] p p' s h = (ground arith, ground arith, ground arith)
  collect_files-Adds provider idx (f ∷ fs) p p' s h =
      let o = collect_file env disk tools now job provider idx f p s in
      elim (Outcome-cases o.0) [
        | inr (e, refused) ↦ absurd (ground arith)
        | inl (p₁, done) ↦
            let first = collect_file-Adds provider idx f p p₁ s done in
            let rest = collect_files-Adds provider (idx + 1) fs p₁ p' o.1 (ground arith) in
            (ground (arith, first, rest), omega (arith, first, rest), omega (arith, first, rest))
      ]

  abbrev given_count : (List CollectedProviderFile → ℕ) → Option ProviderConfig → ℕ
  given_count f row = elim (files_given tools job row) [ none ↦ 0 | some files ↦ f files ]

  abbrev is_collected : Option ProviderConfig → Bool
  is_collected row = elim (files_given tools job row) [
    | none ↦ false
    | some files ↦ none_empty files
  ]

  collect_provider-Adds :
      (name : String) (row : Option ProviderConfig) (p p' : Progress) (s : Session)
      → (collect_provider env disk tools now job name row p s).0 ≡ ok p'
      → Adds p p' (is_collected row) (given_count length row) (given_count full_count row)
  unfolding collect_provider files_given add_failure
  collect_provider-Adds name none p p' s h =
      (ground (arith, no_failures-append p.failures), ground arith, ground arith)
  collect_provider-Adds name (some provider) p p' s h =
      elim (Bool-cases (provider.connection_status == "connected")) [
        | inr other ↦ (ground (arith, no_failures-append p.failures), ground arith, ground arith)
        | inl connected ↦ elim (Bool-cases (truthy? provider.oauth_access_token_enc)) [
          | inr missing ↦
              (ground (arith, no_failures-append p.failures), ground arith, ground arith)
          | inl token ↦
              elim (Outcome-cases (tools.execute_provider provider job.month_scope job.id)) [
                | inr (e, failed) ↦
                    (ground (arith, no_failures-append p.failures), ground arith, ground arith)
                | inl (files, got) ↦
                    let q = record p { files_discovered = p.files_discovered + length files } in
                    let done = collect_files-Adds name 1 files q p' s (ground arith) in
                    (ground (arith, done), ground (arith, done), ground (arith, done))
              ]
        ]
      ]

  pub collect_providers-Adds :
      (rows : List ProviderConfig) (names : List String) (p p' : Progress) (s : Session)
      → (collect_providers env disk tools now job rows names p s).0 ≡ ok p'
      → Adds p p'
          (all_collected tools job rows names)
          (discovered tools job rows names)
          (downloaded tools job rows names)
  unfolding collect_providers all_collected discovered downloaded
  collect_providers-Adds rows [] p p' s h = (ground arith, ground arith, ground arith)
  collect_providers-Adds rows (name ∷ names) p p' s h =
      let row = provider_of name rows in
      let o = collect_provider env disk tools now job name row p s in
      elim (Outcome-cases o.0) [
        | inr (e, refused) ↦ absurd (ground arith)
        | inl (p₁, done) ↦
            let first = collect_provider-Adds name row p p₁ s done in
            let rest = collect_providers-Adds rows names p₁ p' o.1 (ground arith) in
            (ground (arith, first, rest), omega (arith, first, rest), omega (arith, first, rest))
      ]

-- A run without files is no clean one.
pub with_no_files-Adds :
    (p : Progress)
    → (no_failures (with_no_files p).failures
        ≡ (no_failures p.failures && not (eqb p.files_downloaded 0)))
      × ((with_no_files p).files_discovered ≡ p.files_discovered)
      × ((with_no_files p).files_downloaded ≡ p.files_downloaded)
unfolding with_no_files add_failure
with_no_files-Adds p = elim (List-cases p.failures) [
  | inr (f, (fs, e)) ↦ (ground arith, ground arith, ground arith)
  | inl e ↦ elim (Bool-cases (eqb p.files_downloaded 0)) [
    | inl nothing ↦
        let z : p.files_downloaded ≡ 0 = ground arith in (ground arith, ground arith, ground arith)
    | inr some_files ↦ (ground arith, ground arith, ground arith)
  ]
]
