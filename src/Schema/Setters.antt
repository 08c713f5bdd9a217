-- ===== src/Schema/Setters.antt =====
-- The setters of `ColumnDefinition` in src/schema/schema.cpp. `AddColumn` and `Finalize` make the changes
-- of two of them in place.
use storage_prototype.Common.{ℕ, ◌%◌, ◌^◌, Bool}
use storage_prototype.Schema.{DataType, Name, ColumnDefinition}

set_field_index : ColumnDefinition → ℕ → ColumnDefinition
set_field_index c index = record c { field_index = index % 2 ^ 16 }

set_offset : ColumnDefinition → ℕ → ColumnDefinition
set_offset c off = record c { offset = off }

set_fixed_size : ColumnDefinition → ℕ → ColumnDefinition
set_fixed_size c size = record c { fixed_size = size }

set_max_size : ColumnDefinition → ℕ → ColumnDefinition
set_max_size c size = record c { max_size = size }

set_is_nullable : ColumnDefinition → Bool → ColumnDefinition
set_is_nullable c nullable = record c { is_nullable = nullable }

set_data_type : ColumnDefinition → DataType → ColumnDefinition
set_data_type c dt = record c { data_type = dt }

set_column_name : ColumnDefinition → Name → ColumnDefinition
set_column_name c name = record c { column_name = name }
