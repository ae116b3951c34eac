-- ===== src/Examples/Stores.antt =====
-- The theorems on job stores at concrete inputs.
use mathlib.Core.Path.{subst}
use gokue.Prelude.{List, ◌+◌, ◌<◌, ◌^◌, true, none, some, [], ◌∷◌, ◌≡◌, refl, sym, ap, ◌∙◌, arith}
use gokue.Prelude.Int.{pos, ◌+ℤ◌, IsInt64}
use gokue.Record.{JobRecord, not_connected}
use gokue.JobStore.{Keeping, claims, updates, gets, answers, found, done, failed}
use gokue.MemoryStore.{with_defaults}
use gokue.MemoryStore.Validity.{IsValid}
use gokue.MemoryStore.Refinement.{memory_call, memory_call-IsValid}
use gokue.Mongo.Driver.{Document, to_document}
use gokue.Mongo.JobStore.{MongoJobStore, close}
use gokue.Mongo.Laws.{HasRoom, IsStored, up_to_limit}
use gokue.Mongo.Refinement.{mongo_call}
use gokue.Mongo.Refinement.Interleaved.{Leaves}
use gokue.Mongo.Lifecycle.{call-close}
use gokue.Examples.Documents.{content, one_document, single}
use gokue.Examples.Store.{
  older, two, one_taken, both_taken, taken, taken_later, finished, updated, first_claim,
  second_claim, first_update, two-IsValid,
}

first_call : memory_call none (pos 50) claims two ≡ (one_taken, found taken)
unfolding memory_call
first_call = ap (answers found) first_claim

second_call : memory_call none (pos 60) claims one_taken ≡ (both_taken, found taken_later)
unfolding memory_call
second_call = ap (answers found) second_claim

one_taken-IsValid : IsValid one_taken.records
one_taken-IsValid =
    subst (λ r. IsValid r.0.records) first_call
      (memory_call-IsValid none (pos 50) claims two two-IsValid)

update_call : memory_call none (pos 70) (updates finished) one_taken ≡ (updated, done)
unfolding memory_call
update_call = ap (answers (λ u. done)) first_update

updated-IsValid : IsValid updated.records
updated-IsValid =
    subst (λ r. IsValid r.0.records) update_call
      (memory_call-IsValid none (pos 70) (updates finished) one_taken one_taken-IsValid)

-- Everything is kept as it is.
abbrev exact : Keeping
exact = record { payload = λ p. p; time = λ t. t }

abbrev document : Document
document = to_document (with_defaults older)

abbrev connected : MongoJobStore
connected = record {
  conn = some (record { uri = "mongodb://localhost"; client = some 1 });
  database = "gokue";
  collection = "jobs";
}

document-IsStored : IsStored exact (content (document ∷ []))
document-IsStored = record {
  keyed =
      λ k d at. let (same, key) = single exact document k d at in ap (λ x. x.id) (sym same) ∙ key;
  payloads = λ k d at. refl;
  payloads_kept = λ p. refl;
  dates = λ t. omega arith;
}

document-HasRoom : HasRoom (content (document ∷ []))
unfolding to_document with_defaults ◌+ℤ◌
document-HasRoom k d at =
    subst (λ x. IsInt64 (x.version +ℤ pos 1) × (x.attempts + 1 < 2 ^ 63))
      (single exact document k d at).0 ((omega arith, omega arith), omega arith)

call-close_example :
    mongo_call
      (one_document exact)
      (some (close true connected (1 ∷ [])).0)
      (pos 50)
      (gets (1 ∷ []))
      (document ∷ [])
    ≡ (document ∷ [], failed not_connected)
unfolding close
call-close_example =
    call-close (one_document exact) true connected (1 ∷ []) (pos 50) (gets (1 ∷ [])) (document ∷ [])

-- An update of a version that is not stored, between whose operations another client deletes all.
abbrev stale : JobRecord
stale = record older { version = pos 7 }

abbrev delete_all : List Document → List Document
delete_all l = []

deleted-Leaves :
    (l : List Document)
    → Leaves (one_document exact) exact content (pos 50) (some connected) l delete_all stale []
unfolding content
deleted-Leaves l = record {
  stored = record {
    keyed = λ k d at. absurd (cc at);
    payloads = λ k d at. refl;
    payloads_kept = λ p. refl;
    dates = λ t. omega arith;
  };
  counts = λ f. up_to_limit 0 (λ e k d at. absurd (cc at), λ absent. refl);
  outdated = λ k d at. absurd (cc at);
}
