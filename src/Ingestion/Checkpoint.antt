-- ===== src/Ingestion/Checkpoint.antt =====
-- ingestion/checkpoint.py: the ledger of finished items, as an interface with its law, and the
-- in-memory ledger.
use margin_mvp.Base.{
  String, ◌≡◌, Bool, ◌||◌, List, ◌∷◌, arith, ◌==◌, contains, string_eq, pair_eq, if◌then◌else◌,
}

abbrev pub ItemKey : Type 0
ItemKey = String × String

abbrev pub same_item : ItemKey → ItemKey → Bool
same_item j k = j == k

pub record Checkpointer : Type 1 where
  pub Ledger : Type 0
  pub has_seen : Ledger → String → String → Bool
  pub mark_done : Ledger → String → String → Ledger

-- marking an item makes it seen, and no other item
pub record IsLawful (C : Checkpointer) : Type 0 where
  pub seen-mark :
      (l : C.Ledger) (source_ref item_id ref id : String)
      → C.has_seen (C.mark_done l source_ref item_id) ref id
        ≡ (same_item (ref, id) (source_ref, item_id) || C.has_seen l ref id)

-- `self._done.add(...)`
unfoldable pub add_done : List ItemKey → ItemKey → List ItemKey
add_done done k = if contains done k then done else k ∷ done

abbrev pub in_memory : Checkpointer
in_memory = record {
  Ledger = List ItemKey;
  has_seen = λ done source_ref item_id. contains done (source_ref, item_id);
  mark_done = λ done source_ref item_id. add_done done (source_ref, item_id);
}

contains-add_done :
    (done : List ItemKey) (k j : ItemKey)
    → contains (add_done done k) j ≡ (j == k || contains done j)
unfolding add_done
contains-add_done done k j = ground arith

-- InMemoryCheckpointer: mark_done makes has_seen true of the marked item and changes it for no other item.
pub in_memory-IsLawful : IsLawful in_memory
in_memory-IsLawful = record {
  seen-mark =
      λ done source_ref item_id ref id. contains-add_done done (source_ref, item_id) (ref, id);
}
