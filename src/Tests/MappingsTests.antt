-- ===== src/Tests/MappingsTests.antt =====
-- Two copies of one master's position on account 7, and one on account 8.
use forex_automated_copy_tra.Base.{ℕ, ◌-◌, ◌≡◌, refl, none, some, List, [], ◌∷◌}
use forex_automated_copy_tra.Text.{codes, text_eq}
use forex_automated_copy_tra.Mappings.{Mapping, active, reduce_fifo, position_row}
use forex_automated_copy_tra.Mappings.Writes.{write, reduce_oldest, create_position}
use forex_automated_copy_tra.Mappings.Owner.{others, write-others}
use forex_automated_copy_tra.Mappings.Unique.{IsUnique, coids, write-IsUnique}
use forex_automated_copy_tra.Mappings.Volumes.{held_on, held_on-reduce_fifo}

abbrev first_copy : Mapping ℕ
first_copy = record (position_row 1 7 (codes "cm1.7") 1 none) {
  slave_position_id = some 100;
  slave_volume = some 30;
  status = active;
}

abbrev second_copy : Mapping ℕ
second_copy = record first_copy {
  master_position_id = some 2;
  client_order_id = some (codes "cm2.7");
}

abbrev other_copy : Mapping ℕ
other_copy = record first_copy { slave_account_id = 8; client_order_id = some (codes "cm1.8") }

abbrev table : List (Mapping ℕ)
table = first_copy ∷ other_copy ∷ second_copy ∷ []

holds_ten_less : held_on 7 100 (reduce_fifo 7 100 40 table) ≡ 20
unfolding reduce_fifo
holds_ten_less = refl

table-IsUnique : IsUnique (coids table)
unfolding text_eq
table-IsUnique = ((refl, (refl, tt)), ((refl, tt), (tt, tt)))

write-others_example : others 7 (write (reduce_oldest 7 100 40) table) ≡ others 7 table
write-others_example = write-others (reduce_oldest 7 100 40) table

write-IsUnique_example : IsUnique (coids (write (create_position 3 7 (codes "cm2.7") 1 none) table))
write-IsUnique_example =
    write-IsUnique (create_position 3 7 (codes "cm2.7") 1 none) table table-IsUnique

held_on-reduce_fifo_example : held_on 7 100 (reduce_fifo 7 100 40 table) ≡ held_on 7 100 table - 40
held_on-reduce_fifo_example = held_on-reduce_fifo 7 100 40 table
