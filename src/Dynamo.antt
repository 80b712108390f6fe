-- ===== src/Dynamo.antt =====
-- internal/dynamo/client.go: the requests of the DynamoDB client and the classification of its
-- errors. The client and the conversion of Go structs to attribute maps are parameters.
pub mod Factory
use realtime_messaging_platf.Prelude.{Bool, true, false, ◌||◌, String, List, Option, none, some}
use realtime_messaging_platf.Domain.Errors.{
  Error, sentinel, jwt, conditional_check_failed, transaction_canceled, plain, wrap, join,
}
use realtime_messaging_platf.Effect.{Result, Action}

-- AttributeValueMemberS and AttributeValueMemberN.
pub data AttributeValue : Type 0 where
  text number : String → AttributeValue

abbrev pub AttributeMap : Type 0
AttributeMap = List (String × AttributeValue)

pub record GetItemInput : Type 0 where
  pub table_name : String
  pub key : AttributeMap
  pub consistent_read : Bool

pub record PutItemInput : Type 0 where
  pub table_name : String
  pub item : AttributeMap
  pub condition_expression : String
  pub expression_attribute_names : List (String × String)
  pub expression_attribute_values : AttributeMap

-- The fields that no caller sets are left out; a condition that is not set is the empty text.
pub record UpdateItemInput : Type 0 where
  pub table_name : String
  pub key : AttributeMap
  pub update_expression : String
  pub condition_expression : String
  pub expression_attribute_names : List (String × String)
  pub expression_attribute_values : AttributeMap

pub record QueryInput : Type 0 where
  pub table_name : String
  pub index_name : String
  pub key_condition_expression : String
  pub filter_expression : String
  pub expression_attribute_values : AttributeMap

pub record DeleteItemInput : Type 0 where
  pub table_name : String
  pub key : AttributeMap

pub data TransactWriteItem : Type 0 where
  update_item : UpdateItemInput → TransactWriteItem
  put_item : PutItemInput → TransactWriteItem

pub record Client (W : Type 0) : Type 0 where
  -- No item is `none`.
  pub get_item : GetItemInput → Action W (Option AttributeMap)
  pub put_item : PutItemInput → Action W Unit
  pub update_item : UpdateItemInput → Action W Unit
  pub query : QueryInput → Action W (List AttributeMap)
  pub delete_item : DeleteItemInput → Action W Unit
  pub transact_write_items : List TransactWriteItem → Action W Unit

-- MarshalMap and UnmarshalMap at one struct type.
pub record Codec (Item : Type 0) : Type 0 where
  pub marshal_map : Item → Result AttributeMap
  pub unmarshal_map : AttributeMap → Result Item

-- errors.As at the two exceptions of the service.
unfoldable pub is_conditional_check_failed : Error → Bool
is_conditional_check_failed (sentinel _) = false
is_conditional_check_failed (jwt _) = false
is_conditional_check_failed conditional_check_failed = true
is_conditional_check_failed (transaction_canceled _) = false
is_conditional_check_failed (plain _) = false
is_conditional_check_failed (wrap _ e) = is_conditional_check_failed e
is_conditional_check_failed (join a b) =
    is_conditional_check_failed a || is_conditional_check_failed b

or_else : Option (List String) → Option (List String) → Option (List String)
or_else none b = b
or_else (some a) b = some a

unfoldable pub is_transaction_canceled_exception : Error → Option (List String)
unfolding or_else
is_transaction_canceled_exception (sentinel _) = none
is_transaction_canceled_exception (jwt _) = none
is_transaction_canceled_exception conditional_check_failed = none
is_transaction_canceled_exception (transaction_canceled reasons) = some reasons
is_transaction_canceled_exception (plain _) = none
is_transaction_canceled_exception (wrap _ e) = is_transaction_canceled_exception e
is_transaction_canceled_exception (join a b) =
    or_else (is_transaction_canceled_exception a) (is_transaction_canceled_exception b)
