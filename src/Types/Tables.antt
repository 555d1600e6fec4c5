-- ===== src/Types/Tables.antt =====
-- The tables of `mapType` in the frontend's utils/typeValidator.js, one for each language.
use assessment_microservice.Base.{String, concat}

pub data Language : Type 0 where
  cpp java csharp go typescript c kotlin rust : Language

-- A language's table: a text for each kind but array and matrix, which say what they make of the
-- text of their inner type.
pub record TypeMap : Type 0 where
  pub number : String
  pub string : String
  pub boolean : String
  pub void : String
  pub array : String → String
  pub matrix : String → String
  pub tree : String
  pub linkedlist : String
  pub graph : String

abbrev cpp_map : TypeMap
cpp_map = record {
  number = "int";
  string = "string";
  boolean = "bool";
  void = "void";
  array = λ t. concat "vector<" (concat t ">");
  matrix = λ t. concat "vector<vector<" (concat t ">>");
  tree = "TreeNode*";
  linkedlist = "ListNode*";
  graph = "Node*";
}

abbrev java_map : TypeMap
java_map = record {
  number = "int";
  string = "String";
  boolean = "boolean";
  void = "void";
  array = λ t. concat t "[]";
  matrix = λ t. concat t "[][]";
  tree = "TreeNode";
  linkedlist = "ListNode";
  graph = "Node";
}

abbrev csharp_map : TypeMap
csharp_map = record {
  number = "int";
  string = "string";
  boolean = "bool";
  void = "void";
  array = λ t. concat t "[]";
  matrix = λ t. concat t "[][]";
  tree = "TreeNode";
  linkedlist = "ListNode";
  graph = "Node";
}

abbrev go_map : TypeMap
go_map = record {
  number = "int";
  string = "string";
  boolean = "bool";
  void = "";
  array = λ t. concat "[]" t;
  matrix = λ t. concat "[][]" t;
  tree = "*TreeNode";
  linkedlist = "*ListNode";
  graph = "*Node";
}

abbrev typescript_map : TypeMap
typescript_map = record {
  number = "number";
  string = "string";
  boolean = "boolean";
  void = "void";
  array = λ t. concat t "[]";
  matrix = λ t. concat t "[][]";
  tree = "TreeNode | null";
  linkedlist = "ListNode | null";
  graph = "Node | null";
}

abbrev c_map : TypeMap
c_map = record {
  number = "int";
  string = "const char*";
  boolean = "bool";
  void = "void";
  array = λ t. concat t "*";
  matrix = λ t. concat t "**";
  tree = "struct TreeNode*";
  linkedlist = "struct ListNode*";
  graph = "struct Node*";
}

abbrev kotlin_map : TypeMap
kotlin_map = record {
  number = "Int";
  string = "String";
  boolean = "Boolean";
  void = "Unit";
  array = λ t. concat "Array<" (concat t ">");
  matrix = λ t. concat "Array<Array<" (concat t ">>");
  tree = "TreeNode?";
  linkedlist = "ListNode?";
  graph = "Node?";
}

abbrev rust_map : TypeMap
rust_map = record {
  number = "i32";
  string = "String";
  boolean = "bool";
  void = "()";
  array = λ t. concat "Vec<" (concat t ">");
  matrix = λ t. concat "Vec<Vec<" (concat t ">>");
  tree = "Option<Rc<RefCell<TreeNode>>>";
  linkedlist = "Option<Box<ListNode>>";
  graph = "Option<Rc<RefCell<Node>>>";
}

abbrev pub map_of : Language → TypeMap
map_of cpp = cpp_map
map_of java = java_map
map_of csharp = csharp_map
map_of go = go_map
map_of typescript = typescript_map
map_of c = c_map
map_of kotlin = kotlin_map
map_of rust = rust_map
