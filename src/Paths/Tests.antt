-- ===== src/Paths/Tests.antt =====
-- Runs on names of queues (lib/BdbStoreProvider.cpp, lib/JournalImpl.cpp).
use bdbmsgstore.Prelude.{ℕ, List, ◌≡◌, ◌↔◌, refl, [], ◌∷◌, arith}
use bdbmsgstore.Paths.{
  hash_from, b_hash, get_jrnl_hash_dir, get_sub_db_name, get_sub_db_path, created_path,
  recovered_path,
}
use bdbmsgstore.Paths.Apart.{created_path-apart}

-- 97 + 33 * 98 + ..., the last character first; a character above 127 counts as negative.
ab_hash : (b_hash (97 ∷ (98 ∷ [])) ≡ 3299) × (b_hash (255 ∷ []) ≡ 4294967295)
unfolding b_hash hash_from
ab_hash = (refl, refl)

-- jrnl/0016/ab/ab_s012.db
ab_path :
    created_path (97 ∷ (98 ∷ [])) 12
    ≡ 106
      ∷ (114
          ∷ (110
              ∷ (108
                  ∷ (47
                      ∷ (48
                          ∷ (48
                              ∷ (49
                                  ∷ (54
                                      ∷ (47
                                          ∷ (97
                                              ∷ (98
                                                  ∷ (47
                                                      ∷ (97
                                                          ∷ (98
                                                            ∷ (95
                                                            ∷ (115
                                                            ∷ (48
                                                            ∷ (49
                                                            ∷ (50
                                                            ∷ (46
                                                            ∷ (100 ∷ (98 ∷ []))))))))))))))))))))))
unfolding created_path get_sub_db_path get_sub_db_name get_jrnl_hash_dir b_hash hash_from
ab_path = refl

-- With a NUL in the name all databases of the queue have one path until the broker restarts.
with_nul : created_path (97 ∷ (0 ∷ [])) 0 ≡ created_path (97 ∷ (0 ∷ [])) 1
unfolding created_path get_sub_db_path get_sub_db_name get_jrnl_hash_dir b_hash hash_from
with_nul = refl

abbrev a_name : List ℕ
a_name = 97 ∷ []

abbrev b_name : List ℕ
b_name = 98 ∷ []

abbrev first : ℕ
first = 0

abbrev second : ℕ
second = 1

created_path-apart_example :
    (recovered_path a_name first ≡ created_path a_name first)
    × ((created_path a_name first ≡ created_path b_name second)
        ↔ ((a_name ≡ b_name) × (first ≡ second)))
created_path-apart_example =
    created_path-apart a_name b_name first second (refl, tt) (refl, tt) (omega arith) (omega arith)
